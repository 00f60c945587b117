-- ===== src/Tcp/Headers.antt =====
-- A message whose header has just been read, and the tests of an empty buffer.
use libfranka.Prelude.{
  ℕ, zero, suc, ◌+◌, ◌≤◌, ◌<◌, ◌≡◌, ◌∙◌, inl, inr, refl, sym, ap, Bool, true, false, ◌&&◌, List, [],
  ◌∷◌, length, take, replicate, arith,
}
use libfranka.Tcp.Bytes.{write_at, length-write_at, take-write_at}
use libfranka.Tcp.Channel.{Header, Tcp, is_empty, begin_message}
use libfranka.Tcp.Frames.{partial, HasBegun, IsFramed}

length-replicate : (n a : ℕ) → length (replicate n a) ≡ n
length-replicate zero a = refl
length-replicate (suc n) a = ap suc (length-replicate n a)

pub empty_if : {A : Type 0} (xs : List A) → is_empty xs ≡ true → xs ≡ []
empty_if [] e = refl
empty_if (x ∷ xs) e = absurd (cc)

pub not_empty : {A : Type 0} (xs : List A) → 0 < length xs → is_empty xs ≡ false
not_empty [] p = elim (none_below p) [ ]
  where
    none_below : 0 < 0 → ⊥
    none_below q = omega arith
not_empty (x ∷ xs) p = refl

pub both_true : (a b : Bool) → (a && b) ≡ true → (a ≡ true) × (b ≡ true)
both_true true true e = (refl, refl)
both_true true false e = absurd (cc)
both_true false b e = absurd (cc)

module _ {S : Type 0} (h : Header) where
  -- A header that was read whole, and whose size is not too small.
  pub HasBegun-begin_message :
      (bs : List ℕ) (s : Tcp S)
      → length bs ≡ h.size
      → h.size ≤ h.size_of bs
      → HasBegun h (begin_message h bs s) × (partial (begin_message h bs s) ≡ bs)
  HasBegun-begin_message bs s whole fits =
      let n = h.size_of bs in
      let zeros : List ℕ = replicate n 0 in
      let room : 0 + length bs ≤ length zeros = omega (arith, whole, fits, length-replicate n 0) in
      let long = length-write_at 0 bs zeros room in
      let taken : take h.size (write_at 0 bs zeros) ≡ bs =
        ap (λ k. take k (write_at 0 bs zeros)) (omega (arith, whole))
        ∙ take-write_at 0 bs zeros room in
      (
        (
          omega arith,
          omega (arith, long, fits, length-replicate n 0),
          long ∙ length-replicate n 0 ∙ ap h.size_of (sym taken),
          ap h.command_id_of (sym taken),
        ),
        taken,
      )

  -- With an empty buffer nothing has been read of a message.
  pub nothing_read :
      (s : Tcp S) → IsFramed h s → s.pending_response ≡ [] → s.pending_response_offset ≡ 0
  nothing_read s (inl (_, zero_offset)) e = zero_offset
  nothing_read s (inr (_, before)) e =
      elim (none_before s.pending_response_offset (ap length e) before) [ ]
    where
      none_before : (o : ℕ) {l : ℕ} → l ≡ 0 → o < l → ⊥
      none_before o {l} p q = omega arith

  pub begun_if : (s : Tcp S) → IsFramed h s → is_empty s.pending_response ≡ false → HasBegun h s
  begun_if s (inl (e, _)) full = absurd (let k = ap is_empty e in cc)
  begun_if s (inr (begun, _)) full = begun
