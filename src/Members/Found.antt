-- ===== src/Members/Found.antt =====
-- What a statement that ended well has checked, and the rows that it found.
use ask_repo.Table.{HasKeys, first_row}
use ask_repo.Prelude.{
  ℕ, ◌≡◌, refl, sym, ap, ◌∙◌, ◌≢◌, inl, inr, Bool, true, false, Option, none, some, List, [], ◌∷◌,
  arith, All, All-map, Bool-cases,
}
use mathlib.Core.Path.{subst}
use ask_repo.Access.{ErrorCode, Call, ensure, raised, ok, ◌>>=◌, ◌>>◌}
use ask_repo.Members.{any_row, or_raise}

module _ {A : Type 0} (e : ErrorCode) where
  pub ensure-ok :
      (b : Bool) {k : Call A} {a : A} → (ensure b e >> k) ≡ ok a → (b ≡ true) × (k ≡ ok a)
  ensure-ok true h = (refl, h)
  ensure-ok false h = cc

  pub or_raise-ok :
      {B : Type 0} (o : Option B) {f : B → Call A} {a : A}
      → (or_raise o e >>= f) ≡ ok a
      → (b : B) × (o ≡ some b) × (f b ≡ ok a)
  or_raise-ok none h = cc
  or_raise-ok (some b) h = (b, refl, h)

pub unit-ok :
    {A : Type 0} (m : Call (Unit {0})) {k : Call A} {a : A}
    → (m >> k) ≡ ok a
    → (m ≡ ok tt) × (k ≡ ok a)
unit-ok (ok tt) h = (refl, h)
unit-ok (raised e) h = cc

module _ {R : Type 0} (p : R → Bool) where
  pub first_row-found : (rs : List R) (r : R) → first_row p rs ≡ some r → p r ≡ true
  unfolding first_row
  first_row-found [] r h = cc
  first_row-found (s ∷ rs) r h = ground (arith, first_row-found rs r)

  pub any_row-first_row :
      (q : R → Bool) (rs : List R) (r : R)
      → first_row p rs ≡ some r
      → q r ≡ true
      → any_row q rs ≡ true
  unfolding first_row any_row
  any_row-first_row q [] r h e = cc
  any_row-first_row q (s ∷ rs) r h e = ground (arith, any_row-first_row q rs r)

  pub All-first_row :
      (P : R → Type 0) (rs : List R) (r : R) → All P rs → first_row p rs ≡ some r → P r
  unfolding first_row
  All-first_row P [] r a h = cc
  All-first_row P (s ∷ rs) r a h = elim (Bool-cases (p s)) [
    | inl hit ↦ let e : s ≡ r = ground arith in subst P e a.0
    | inr miss ↦ All-first_row P rs r a.1 (ground arith)
  ]

  -- Every row with the key of the row that was found is that row.
  pub first_row-only :
      (key : R → ℕ) (rs : List R) (r : R)
      → HasKeys key rs
      → first_row p rs ≡ some r
      → All (λ s. key s ≡ key r → s ≡ r) rs
  unfolding first_row
  first_row-only key [] r k h = tt
  first_row-only key (s ∷ rs) r k h = elim (Bool-cases (p s)) [
    | inl hit ↦
        let e : s ≡ r = ground arith in
        (λ _. e, All-map rs (λ t differs same. elim (differs (same ∙ sym (ap key e))) [ ]) k.0)
    | inr miss ↦
        let found : first_row p rs ≡ some r = ground arith in
        (
          λ same. elim (All-first_row (λ t. key t ≢ key s) rs r k.0 found (sym same)) [ ],
          first_row-only key rs r k.1 found,
        )
  ]
