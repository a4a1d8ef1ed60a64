-- ===== src/Mpi/Ring/Passing.antt =====
-- What holds in every state of ring.c, and that each step keeps it.
use nsdscourse.Base.{ℕ, ◌+◌, ◌≤◌, ◌<◌, ◌≡◌, ◌≢◌, refl, sym, ap, ◌∙◌, arith, List, [], ◌∷◌, get_or}
use nsdscourse.Mpi.Network.{Network}
use nsdscourse.Mpi.Process.{Config, move}
use nsdscourse.Mpi.Ring.{Loop, receiver}
use nsdscourse.Mpi.Ring.Hops.{
  hops_at, under_way, receiver_inj, receiver-ne, hops_at-send, hops_at-own, hops_at-other,
  hops_at-received,
}

module _ (net : Network) (w : ℕ) where
  pub record InRing (c : Config net Loop) : Type 0 where
    pub rounds : (r : ℕ) → r < w → (c.local r).i ≤ w
    pub hops : (r : ℕ) → r < w → (c.local r).num_hops ≡ hops_at w r (c.local r).i
    pub way :
        (s : ℕ)
        → s < w
        → net.pending c.flight s (receiver w s)
          ≡ under_way s (c.local s).i (c.local (receiver w s)).i
    pub order : (s : ℕ) → s < w → s < (c.local (receiver w s)).i → s < (c.local s).i

  -- The states after a step of rank `r`: a copied send, a round without a message, a receive.
  abbrev pub after_send : ℕ → Config net Loop → Config net Loop
  after_send r c =
      move net r (record { i = (c.local r).i + 1; num_hops = (c.local r).num_hops + 1 })
        (record c {
          flight = net.post r (receiver w (c.local r).i) (((c.local r).num_hops + 1) ∷ []) c.flight;
        })

  abbrev pub after_round : ℕ → Config net Loop → Config net Loop
  after_round r c = move net r (record (c.local r) { i = (c.local r).i + 1 }) c

  abbrev pub took : List ℕ → Loop → Loop
  took m l = record { i = l.i + 1; num_hops = get_or m 0 l.num_hops }

  abbrev pub after_receive : ℕ → List ℕ → Config net Loop → Config net Loop
  after_receive r m c =
      move net r (took m (c.local r))
        (record c { flight = net.take_first (c.local r).i r c.flight })

  -- A send of `r` that waits for its receiver `q`.
  abbrev pub after_meeting : ℕ → ℕ → Config net Loop → Config net Loop
  after_meeting r q c =
      move net q (took (((c.local r).num_hops + 1) ∷ []) (c.local q))
        (move net r (record { i = (c.local r).i + 1; num_hops = (c.local r).num_hops + 1 }) c)

  module _ (wide : 2 ≤ w) (c : Config net Loop) (inv : InRing c) (r : ℕ) (small : r < w) where
    pub sent-InRing : r ≡ (c.local r).i → InRing (after_send r c)
    sent-InRing own = record {
      rounds = λ s h. ground (arith, inv.rounds s h);
      hops = λ s h. ground (
        arith,
        inv.hops s h,
        hops_at-send w r wide small,
        hops_at-own w r small,
        ap (λ (j : ℕ). hops_at w r j) own,
      );
      way = λ s h. ground (
        arith,
        inv.way s h,
        inv.hops r small,
        hops_at-own w r small,
        ap (λ (j : ℕ). hops_at w r j) own,
        ap (receiver w) own,
        receiver-ne w s wide h,
        inv.order s h,
        net.pending-post r (receiver w (c.local r).i) (((c.local r).num_hops + 1) ∷ []) c.flight s
            (receiver w s),
      );
      order = λ s h k. ground (arith, k, inv.order s h, receiver-ne w s wide h);
    }

    pub round-InRing :
        (c.local r).i < w
        → r ≢ (c.local r).i
        → r ≢ receiver w (c.local r).i
        → InRing (after_round r c)
    round-InRing more not_sender not_receiver = record {
      rounds = λ s h. ground (arith, inv.rounds s h);
      hops = λ s h.
          ground (
            arith,
            inv.hops s h,
            hops_at-other w r (c.local r).i small more not_sender not_receiver,
          );
      way = λ s h.
          ground (
            arith,
            inv.way s h,
            receiver-ne w s wide h,
            ap (receiver w) {x = s} {y = (c.local r).i},
          );
      order = λ s h k. ground (
        arith,
        k,
        inv.order s h,
        receiver-ne w s wide h,
        ap (receiver w) {x = s} {y = (c.local r).i},
      );
    }

    pub received-InRing :
        (m : List ℕ) (ms : List (List ℕ))
        → (c.local r).i < w
        → r ≡ receiver w (c.local r).i
        → net.pending c.flight (c.local r).i r ≡ m ∷ ms
        → InRing (after_receive r m c)
    received-InRing m ms more is_receiver there =
        let i = (c.local r).i in
        let here : under_way i (c.local i).i (c.local (receiver w i)).i ≡ m ∷ ms =
          sym (inv.way i more) ∙ ap (net.pending c.flight i) (sym is_receiver) ∙ there in
        let at_round = ap (λ (j : ℕ). (c.local j).i) is_receiver in
        record {
          rounds = λ s h. ground (arith, inv.rounds s h);
          hops = λ s h.
              ground (arith, inv.hops s h, here, at_round, hops_at-received w r i more is_receiver);
          way = λ s h. ground (
            arith,
            inv.way s h,
            here,
            at_round,
            is_receiver,
            receiver-ne w s wide h,
            receiver-ne w i wide more,
            receiver_inj w s i h more,
            net.pending-take_first i r c.flight s (receiver w s),
          );
          order = λ s h k. ground (
            arith,
            k,
            here,
            at_round,
            inv.order s h,
            receiver_inj w s i h more,
            receiver-ne w s wide h,
          );
        }

    pub met-InRing :
        r ≡ (c.local r).i
        → (c.local (receiver w r)).i ≡ r
        → net.pending c.flight r (receiver w r) ≡ []
        → InRing (after_meeting r (receiver w r) c)
    met-InRing own waits nothing = record {
      rounds = λ s h. ground (arith, inv.rounds s h);
      hops = λ s h. ground (
        arith,
        inv.hops s h,
        inv.hops r small,
        hops_at-send w r wide small,
        hops_at-own w r small,
        hops_at-received w (receiver w r) r small refl,
        ap (λ (j : ℕ). hops_at w r j) own,
      );
      way = λ s h. ground (
        arith,
        inv.way s h,
        receiver-ne w s wide h,
        receiver-ne w r wide small,
        receiver_inj w s r h small,
        ap (receiver w) {x = s} {y = r},
      );
      order = λ s h k. ground (
        arith,
        k,
        inv.order s h,
        receiver-ne w s wide h,
        receiver-ne w r wide small,
        receiver_inj w s r h small,
      );
    }
