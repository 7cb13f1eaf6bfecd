-- ===== src/GrantCache/Examples.antt =====
-- A cache over a server that keeps its entries in a function. Grants are numbers, and their own texts.
use ask_repo.Prelude.{
  ℕ, suc, ◌+◌, ◌≡◌, refl, ◌≢◌, ◌⊎◌, inl, inr, true, false, ◌&&◌, Option, none, some, List, [], ◌∷◌,
  arith, ◌==◌, if◌then◌else◌,
}
use ask_repo.GrantCache.{Redis, invalidate_user, load, or_zero, write, begin_load, end_load, read}
use ask_repo.GrantCache.Coherence.{Coherent}
use ask_repo.GrantCache.Runs.{
  CacheEvent, answers, answers_refine, answers_without_cache, grants_loaded, late_write_stays,
  roles_changed, user_changed,
}

abbrev Entries : Type 0
Entries = Option ℕ × (ℕ → ℕ → Option ℕ)

abbrev changed_at : ℕ → ℕ → Option ℕ → (ℕ → ℕ → Option ℕ) → ℕ → ℕ → Option ℕ
changed_at d w o f e u = if e == d && u == w then o else f e u

changed_here : (d w : ℕ) (o : Option ℕ) (f : ℕ → ℕ → Option ℕ) → changed_at d w o f d w ≡ o
changed_here d w o f = ground arith

changed_elsewhere :
    (e u d w : ℕ) (o : Option ℕ) (f : ℕ → ℕ → Option ℕ)
    → (e ≢ d) ⊎ (u ≢ w)
    → changed_at d w o f e u ≡ f e u
changed_elsewhere e u d w o f (inl n) = ground arith
changed_elsewhere e u d w o f (inr n) = ground arith

abbrev server : Redis ℕ
server = record {
  State = Entries;
  epoch = λ s. s.0;
  entry = λ e u s. s.1 e u;
  set_entry = λ e u v s. (s.0, changed_at e u (some v) s.1);
  delete = λ e u s. (s.0, changed_at e u none s.1);
  incr = λ s. (some (suc (or_zero s.0)), s.1);
  entry-set_entry = λ e u v s. changed_here e u (some v) s.1;
  entry-set_entry_other = λ e u d w v s n. changed_elsewhere e u d w (some v) s.1 n;
  entry-delete = λ e u s. changed_here e u none s.1;
  entry-delete_other = λ e u d w s n. changed_elsewhere e u d w none s.1 n;
  entry-incr = λ e u s. refl;
  epoch-set_entry = λ e u v s. refl;
  epoch-delete = λ e u s. refl;
  epoch-incr = λ s. refl;
}

abbrev dumps : ℕ → ℕ
dumps g = g

abbrev loads : ℕ → Option ℕ
loads v = some v

abbrev fresh_server : Entries
fresh_server = (none, λ e u. none)

abbrev database : ℕ → ℕ
database u = 10 + u

-- A load, one from the cache, a change of the user, a load out of reach, new roles, and a load.
abbrev requests : List (CacheEvent ℕ)
requests =
    grants_loaded (true, true, true) 1
    ∷ grants_loaded (true, true, true) 1
    ∷ user_changed 1 30
    ∷ grants_loaded (false, true, true) 1
    ∷ grants_loaded (true, true, true) 1
    ∷ roles_changed (λ u. 40)
    ∷ grants_loaded (true, true, true) 1
    ∷ []

fresh-Coherent : Coherent dumps loads server database fresh_server
fresh-Coherent = (λ u v e. cc e, λ e u le. refl)

answers_refine_example :
    answers dumps loads server database fresh_server requests ≡ 11 ∷ 11 ∷ 30 ∷ 30 ∷ 40 ∷ []
unfolding answers_without_cache
answers_refine_example =
    answers_refine dumps loads server database fresh_server requests (λ g. refl) fresh-Coherent

late_write_stays_example :
    load dumps loads server
      (true, true, true)
      (λ u. 0)
      1
      (none, changed_at 0 1 (some 11) (changed_at 0 1 none (λ e u. none)))
    ≡ (11, (none, changed_at 0 1 (some 11) (changed_at 0 1 none (λ e u. none))))
unfolding begin_load end_load invalidate_user write read
late_write_stays_example =
    late_write_stays dumps loads server database (λ u. 0) 1 fresh_server (λ g. refl) refl
