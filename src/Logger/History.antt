-- ===== src/Logger/History.antt =====
-- The logger holds the end of the history: whatever was logged since the last `flush`, the ring keeps
-- as many of the newest entries as it has slots, and `flush` returns them from the oldest on.
use native.Mathlib.Nat.{mod-lt}
use native.Mathlib.Decide.{dec_lt}
use libfranka.Prelude.{
  ℕ, zero, suc, ◌+◌, ◌%◌, ◌≤◌, ◌<◌, ◌≡◌, ◌∙◌, refl, sym, ap, List, [], ◌∷◌, ◌++◌, length,
  length-append, get_or, set, get_or-set_self, get_or-set_ne, drop, arith,
}
use libfranka.Logger.Modulo.{mod_separates}

module _ {ℓ} {A : Type ℓ} where
  pub get_or-append_left :
      (xs ys : List A) (i : ℕ) (d : A) → i < length xs → get_or (xs ++ ys) i d ≡ get_or xs i d
  get_or-append_left [] ys i d h = elim h [ ]
  get_or-append_left (x ∷ xs) ys zero d h = refl
  get_or-append_left (x ∷ xs) ys (suc i) d h = get_or-append_left xs ys i d (omega arith)

  pub get_or-append_last : (xs : List A) (x d : A) → get_or (xs ++ x ∷ []) (length xs) d ≡ x
  get_or-append_last [] x d = refl
  get_or-append_last (y ∷ xs) x d = get_or-append_last xs x d

  pub drop-step :
      (xs : List A) (i : ℕ) (d : A) → i < length xs → drop i xs ≡ get_or xs i d ∷ drop (suc i) xs
  drop-step [] i d h = elim h [ ]
  drop-step (x ∷ xs) zero d h = refl
  drop-step (x ∷ xs) (suc i) d h = drop-step xs i d (omega arith)

  pub drop_all : (xs : List A) → drop (length xs) xs ≡ []
  drop_all [] = refl
  drop_all (x ∷ xs) = drop_all xs

  -- A buffer of `cap` slots holds the end of a history, under the view `f` of an entry: each of its
  -- last `cap` entries stands in the slot that the entry's number has modulo `cap`.
  abbrev pub HoldsEnd {κ} : {E : Type κ} → (E → A) → E → List A → ℕ → List E → Type ℓ
  HoldsEnd f none_yet buffer cap history =
      (k : ℕ)
      → k < length history
      → length history ≤ k + cap
      → get_or buffer (k % cap) (f none_yet) ≡ f (get_or history k none_yet)

module _ {ℓ κ} {A : Type ℓ} {E : Type κ} where
  pub HoldsEnd-write :
      (f : E → A) (none_yet x : E) (buffer : List A) (cap : ℕ) (history : List E)
      → 0 < cap
      → length buffer ≡ cap
      → HoldsEnd f none_yet buffer cap history
      → HoldsEnd f none_yet (set buffer (length history % cap) (f x)) cap (history ++ x ∷ [])
  HoldsEnd-write f e₀ x buffer cap history pos len old k below near =
      let n = length history in
      let grown = length-append history (x ∷ []) in
      let slot : n % cap < length buffer = rw len (mod-lt n pos) in
      elim (dec_lt k n) [
        | yes earlier ↦
            get_or-set_ne buffer (n % cap) (k % cap) (f x) (f e₀)
              (λ e. mod_separates k n cap earlier (omega arith) (sym e))
            ∙ old k earlier (omega arith)
            ∙ sym (ap f (get_or-append_left history (x ∷ []) k e₀ earlier))
        | no late ↦
            let e : k ≡ n = omega arith in
            rw e (
              get_or-set_self buffer (n % cap) (f x) (f e₀) slot
              ∙ sym (ap f (get_or-append_last history x e₀)))
      ]
