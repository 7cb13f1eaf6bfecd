-- ===== src/ChangeSets/Operations/Narrowing.antt =====
-- What `stored_operation` keeps of a proposed operation, and which it drops.
use Prim.Native.String.{String}
use ask_repo.Prelude.{
  ℕ, ◌≡◌, refl, ap, ◌∙◌, ◌↔◌, ◌⊎◌, inl, inr, Bool, true, false, Option, none, some, List, [], ◌∷◌,
  ◌++◌, arith, All, if◌then◌else◌,
}
use ask_repo.ChangeSets.Operations.{
  ProposedOperation, StoredOperation, first_named, narrow_kind, negative, negative_words, or_null,
  positive_words, split_words, stored_operation, text_in, validate, if_valid, is_add, payload_of,
  read_item_id, with_read, ItemKind, positive, read_parsed,
}

-- A word of neither vocabulary.
abbrev pub Unnamed : String → Type 0
Unnamed w = (text_in w negative_words ≡ false) × (text_in w positive_words ≡ false)

-- A word of the negative vocabulary, with only words of neither before it.
abbrev pub NamesNegative : List String → Type 0
NamesNegative words =
    (before : List String) × (w : String) × (after : List String) × (words ≡ before ++ w ∷ after)
    × All Unnamed before
    × (text_in w negative_words ≡ true)

NamesNegative-cons :
    (w : String) (ws : List String) → Unnamed w → NamesNegative ws → NamesNegative (w ∷ ws)
NamesNegative-cons w ws u (before, v, after, e, h, named) =
    (w ∷ before, v, after, ap (λ vs. w ∷ vs) e, (u, h), named)

pick_negative :
    (a b : Bool) (k : ItemKind)
    → (if a then negative else if b then positive else k) ≡ negative
    → (a ≡ true) ⊎ ((a ≡ false) × (b ≡ false) × (k ≡ negative))
pick_negative true b k h = inl refl
pick_negative false true k h = cc
pick_negative false false k h = inr (refl, refl, h)

first_named-NamesNegative : (ws : List String) → first_named ws ≡ negative → NamesNegative ws
unfolding first_named
first_named-NamesNegative [] h = cc
first_named-NamesNegative (w ∷ ws) h = elim (pick_negative _ _ (first_named ws) h) [
  | inl named ↦ ([], w, ws, refl, tt, named)
  | inr rest ↦ NamesNegative-cons w ws (rest.0, rest.1) (first_named-NamesNegative ws rest.2)
]

NamesNegative-first_named :
    (before : List String) (w : String) (after : List String)
    → All Unnamed before
    → text_in w negative_words ≡ true
    → first_named (before ++ w ∷ after) ≡ negative
unfolding first_named
NamesNegative-first_named [] w after h e = rw e
NamesNegative-first_named (v ∷ before) w after h e =
    ground (arith, h, NamesNegative-first_named before w after h.1 e)

-- The kind of a proposed operation is negative exactly when, of the words that its lower-case text splits
-- into, one is in the negative vocabulary and all the words before it are in neither.
narrow_kind_iff :
    (lower : String → String) (raw : String)
    → (narrow_kind lower raw ≡ negative) ↔ NamesNegative (split_words (lower raw))
unfolding narrow_kind
narrow_kind_iff lower raw = (
  first_named-NamesNegative (split_words (lower raw)),
  λ h.
      let (before, w, after, e, unnamed, named) = h in
      ap first_named e ∙ NamesNegative-first_named before w after unnamed named,
)

module _ (lower : String → String) (parse_uuid : String → Option ℕ) (new_id : ℕ)
    (citations : List ℕ) where
  abbrev stored : ProposedOperation → Option StoredOperation
  stored o = stored_operation lower parse_uuid new_id citations o

  parsed_dropped :
      (p : StoredOperation) (o : Option ℕ)
      → (if_valid p (with_read p (read_parsed o)) ≡ none) ↔ (o ≡ none)
  parsed_dropped p none = (λ h. refl, λ h. refl)
  parsed_dropped p (some k) = (λ h. cc h, λ h. cc h)

  item_id_dropped :
      (p : StoredOperation) (o : Option String)
      → (if_valid p (with_read p (read_item_id parse_uuid o)) ≡ none)
        ↔ ((t : String) × (o ≡ some t) × (parse_uuid t ≡ none))
  item_id_dropped p none = (λ h. cc h, λ h. cc (h.1))
  item_id_dropped p (some t) = (
    λ h. (t, refl, (parsed_dropped p (parse_uuid t)).0 h),
    λ h.
        let (u, e, n) = h in
        let same : t ≡ u = cc e in (parsed_dropped p (parse_uuid t)).1 (ap parse_uuid same ∙ n),
  )

  -- An operation is dropped exactly when it is not an addition, it names an item, and the name is not an id.
  stored_operation_dropped_iff :
      (o : ProposedOperation)
      → (stored_operation lower parse_uuid new_id citations o ≡ none) ↔ (
          (t : String) × ((if is_add o.op then none else or_null o.item_id) ≡ some t)
          × (parse_uuid t ≡ none))
  unfolding stored_operation validate payload_of
  stored_operation_dropped_iff o =
      item_id_dropped (payload_of lower new_id citations o)
        (if is_add o.op then none else or_null o.item_id)
