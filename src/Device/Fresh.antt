-- ===== src/Device/Fresh.antt =====
-- What `readOnce` of a gripper makes of the datagrams on the socket.
use libfranka.Prelude.{
  ℕ, zero, suc, ◌<◌, ◌≡◌, ◌∙◌, refl, none, some, List, [], ◌∷◌, length, ok, pure, after-run, ◌>>=◌,
  arith,
}
use libfranka.Device.Link.{Device, drop_old, read_with}

module _ {N W Q F : Type 0} (n : Device N W Q F) where
  -- What a call of the socket that does not wait gives: the next of the datagrams that have arrived,
  -- or none.
  pub record IsSocket (arrived : N → List W) : Type 0 where
    pub next :
        (c : N) (r : W) (q : List W)
        → arrived c ≡ r ∷ q
        → (t : N) × (n.udp_receive c ≡ (ok (some r), t)) × (arrived t ≡ q)
    pub quiet : (c : N) → arrived c ≡ [] → n.udp_receive c ≡ (ok none, c)

  module _ (arrived : N → List W) (socket : IsSocket arrived) where
    drop_old-empties :
        (q : List W) (fuel : ℕ) (c : N)
        → arrived c ≡ q
        → length q < fuel
        → (t : N) × (drop_old n fuel c ≡ (ok tt, t)) × (arrived t ≡ [])
    unfolding drop_old
    drop_old-empties q zero c e h = elim (none_below (length q) h) [ ]
      where
        none_below : (k : ℕ) → k < zero → ⊥
        none_below k p = omega arith
    drop_old-empties [] (suc fuel) c e h = (c, after-run (n.udp_receive c) _ (socket.quiet c e), e)
    drop_old-empties (r ∷ q) (suc fuel) c e h =
        let (t, got, left) = socket.next c r q e in
        let (u, dropped, empty) = drop_old-empties q fuel t left (omega (arith, h)) in
        (u, after-run (n.udp_receive c) _ got ∙ dropped, empty)

    -- With fuel for the datagrams that have arrived, `readOnce` deletes all of them and then gives, or
    -- throws, what the socket without them does next, converted: it never gives one that was there.
    pub read_with-fresh :
        {A : Type 0} (convert : W → A) (fuel : ℕ) (c : N)
        → length (arrived c) < fuel
        → (t : N) × (arrived t ≡ [])
          × (read_with n convert fuel c ≡ (n.udp_blocking_receive >>= λ r. pure (convert r)) t)
    unfolding read_with
    read_with-fresh convert fuel c h =
        let (t, dropped, empty) = drop_old-empties (arrived c) fuel c refl h in
        (t, empty, after-run (drop_old n fuel c) _ dropped)
