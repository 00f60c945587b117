-- ===== src/Robot/Newest.antt =====
-- `receiveRobotState` on a socket that already holds datagrams.
use mathlib.Core.Path.{subst}
use mathlib.Core.List.{Memᴰ, head?}
use native.Mathlib.Nat.{le_refl, le_trans}
use libfranka.Prelude.{
  ℕ, zero, suc, ◌≤◌, ◌<◌, ◌≡◌, ◌∙◌, ◌⊎◌, inl, inr, refl, sym, ap, false, none, some, List, [], ◌∷◌,
  Double, ok, after-step, after-run, length, All, arith, ◌==◌,
}
use libfranka.Interface.{WireState}
use libfranka.Robot.State.{Network, Impl, update_state}
use libfranka.Robot.Channel.{accept, none_accepted, drain, await, receive_robot_state}

le_of_mem {ℓ κ} : {A : Type ℓ} (P : A → Type κ) {a : A} (xs : List A) → All P xs → Memᴰ a xs → P a
le_of_mem P [] h m = elim m [ ]
le_of_mem P (x ∷ xs) h (Memᴰ.head e) = subst P (sym e) h.0
le_of_mem P (x ∷ xs) h (Memᴰ.tail m) = le_of_mem P xs h.1 m

module _ {F : Type 0} where
  -- `latest_accepted_state` after the datagrams of a queue.
  abbrev pub newest : WireState F → List (WireState F) → WireState F
  newest latest [] = latest
  newest latest (r ∷ q) = newest (accept latest r) q

  le-accept :
      (latest r : WireState F)
      → (latest.message_id ≤ (accept latest r).message_id)
        × (r.message_id ≤ (accept latest r).message_id)
  le-accept latest r = ground arith

  le-newest :
      (latest : WireState F) (q : List (WireState F))
      → latest.message_id ≤ (newest latest q).message_id
  le-newest latest [] = le_refl _
  le-newest latest (r ∷ q) = le_trans (le-accept latest r).0 (le-newest (accept latest r) q)

  -- No datagram of the queue is newer than the one that is taken.
  newest_greatest :
      (latest : WireState F) (q : List (WireState F))
      → All (λ r. r.message_id ≤ (newest latest q).message_id) q
  newest_greatest latest [] = tt
  newest_greatest latest (r ∷ q) = (
    le_trans (le-accept latest r).1 (le-newest (accept latest r) q),
    newest_greatest (accept latest r) q,
  )

  accept-cases : (latest r : WireState F) → (accept latest r ≡ latest) ⊎ (accept latest r ≡ r)
  accept-cases latest r = ground arith

  -- What is taken is the state before the loop or a datagram of the queue.
  newest-mem :
      (latest : WireState F) (q : List (WireState F))
      → (newest latest q ≡ latest) ⊎ Memᴰ (newest latest q) q
  newest-mem latest [] = inl refl
  newest-mem latest (r ∷ q) = go (newest-mem (accept latest r) q) (accept-cases latest r)
    where
      go :
          (newest (accept latest r) q ≡ accept latest r) ⊎ Memᴰ (newest (accept latest r) q) q
          → (accept latest r ≡ latest) ⊎ (accept latest r ≡ r)
          → (newest (accept latest r) q ≡ latest) ⊎ Memᴰ (newest (accept latest r) q) (r ∷ q)
      go (inr m) _ = inr (Memᴰ.tail m)
      go (inl e) (inl f) = inl (e ∙ f)
      go (inl e) (inr f) = inr (Memᴰ.head (e ∙ f))

module _ (F : Type 0) ⦃d : Double F⦄ where
  le-none_accepted :
      (id : ℕ) (r : WireState F) (q : List (WireState F))
      → Memᴰ r q
      → id < r.message_id
      → id < (newest (none_accepted id) q).message_id
  le-none_accepted id r q m h = le_trans h (
      le_of_mem (λ x. x.message_id ≤ (newest (none_accepted id) q).message_id) q
        (newest_greatest (none_accepted id) q) m)

  message_id-none_accepted : (id : ℕ) → (none_accepted {F = F} id).message_id ≡ id
  unfolding none_accepted
  message_id-none_accepted id = refl

module _ {N F : Type 0} ⦃d : Double F⦄ ⦃n : Network N F⦄ where
  -- The socket: the datagrams that it holds, which `udpReceive` takes one by one, as long as no other
  -- one arrives.
  pub record IsQueue (pending : N → List (WireState F)) : Type 0 where
    pub first : (c : N) → (n.udp_receive c).0 ≡ ok (head? (pending c))
    pub rest :
        (c : N) (r : WireState F) (q : List (WireState F))
        → pending c ≡ r ∷ q
        → pending (n.udp_receive c).1 ≡ q
    pub empty : (c : N) → pending c ≡ [] → pending (n.udp_receive c).1 ≡ []

  module _ (pending : N → List (WireState F)) (socket : IsQueue pending) where
    drain-newest :
        (fuel : ℕ) (latest : WireState F) (s : Impl N F) (q : List (WireState F))
        → pending s.network ≡ q
        → length q < fuel
        → (c : N) × (drain fuel latest s ≡ (ok (newest latest q), record s { network = c }))
          × (pending c ≡ [])
    unfolding drain
    drain-newest zero latest s q e h = absurd (omega arith)
    drain-newest (suc fuel) latest s [] e h =
        let c = (n.udp_receive s.network).1 in
        let got : (n.udp_receive s.network).0 ≡ ok none =
          socket.first s.network ∙ ap (λ l. ok (head? l)) e in
        (c, after-step (record s { network = c }) _ got, socket.empty s.network e)
    drain-newest (suc fuel) latest s (r ∷ q) e h =
        let c = (n.udp_receive s.network).1 in
        let got : (n.udp_receive s.network).0 ≡ ok (some r) =
          socket.first s.network ∙ ap (λ l. ok (head? l)) e in
        let (c', ran, done) =
          drain-newest fuel (accept latest r) (record s { network = c }) q
            (socket.rest s.network r q e) (omega arith) in
        (c', after-step (record s { network = c }) _ got ∙ ran, done)

    await-new :
        (fuel : ℕ) (latest : WireState F) (s : Impl N F)
        → 0 < fuel
        → s.message_id < latest.message_id
        → await fuel latest s ≡ (ok latest, s)
    unfolding await
    await-new zero latest s h new = absurd (omega arith)
    await-new (suc fuel) latest s h new =
        let differs : (latest.message_id == s.message_id) ≡ false = ground arith in rw differs

    -- With the fuel to empty the socket, and a datagram in it that is newer than the last accepted
    -- state, `receiveRobotState` returns a datagram of the socket than which none there is newer, has
    -- taken all of them, and has changed in the object only what `updateState` copies.
    pub receive_robot_state-newest :
        (fuel : ℕ) (s : Impl N F) (r : WireState F)
        → length (pending s.network) < fuel
        → Memᴰ r (pending s.network)
        → s.message_id < r.message_id
        → (w : WireState F) × (c : N) × (receive_robot_state fuel s
            ≡ (ok w, update_state w (record s { network = c })))
          × Memᴰ w (pending s.network)
          × All (λ x. x.message_id ≤ w.message_id) (pending s.network)
          × (pending c ≡ [])
    unfolding receive_robot_state
    receive_robot_state-newest fuel s r h m new =
        let q = pending s.network in
        let start = none_accepted s.message_id in
        let w = newest start q in
        let newer : s.message_id < w.message_id = le-none_accepted F s.message_id r q m new in
        let (c, drained, done) = drain-newest fuel start s q refl h in
        let u = record s { network = c } in
        (
          w,
          c,
          after-run (drain fuel start s) _ drained
              ∙ after-run (await fuel w u) _ (await-new fuel w u (omega arith) newer),
          taken (newest-mem start q) newer,
          newest_greatest start q,
          done,
        )
      where
        taken :
            (newest (none_accepted s.message_id) (pending s.network) ≡ none_accepted s.message_id)
              ⊎ Memᴰ (newest (none_accepted s.message_id) (pending s.network)) (pending s.network)
            → s.message_id < (newest (none_accepted s.message_id) (pending s.network)).message_id
            → Memᴰ (newest (none_accepted s.message_id) (pending s.network)) (pending s.network)
        taken (inr k) _ = k
        taken (inl e) k = absurd (
            omega (
              arith,
              ap (λ (x : WireState F). x.message_id) e,
              message_id-none_accepted F s.message_id,
            ))
