-- ===== src/Dashboard/Flush.antt =====
-- engine/WsServer.hpp, `flush`: what it keeps, and that its loop ends.
use mathlib.Core.List.{append_assoc}
use odds_engine.Base.{
  ℕ, zero, suc, ◌≤◌, ◌<◌, ◌≡◌, refl, ap, ◌∙◌, true, List, [], ◌∷◌, ◌++◌, ◌==◌, if-P, length, take,
  drop, length-drop, arith, Bool-cases, inl, inr,
}
use odds_engine.Base.Bytes.{Bytes}
use odds_engine.Dashboard.Server.{Peer, Sent, took, would_block, broken, take_up, flush_loop, flush}

-- The bytes that a client has been sent and those that wait for it.
abbrev pub stream : Peer → Bytes
stream p = p.sent ++ p.out

-- What `flush` does to a client: bytes that waited may be sent, and the client may die.
pub record Flushed (p q : Peer) : Type 0 where
  pub same_fd : q.fd ≡ p.fd
  pub same_open : q.is_open ≡ p.is_open
  pub same_input : q.input ≡ p.input
  pub same_stream : stream q ≡ stream p
  pub no_more : length q.out ≤ length p.out
  pub stays_dead : p.dead ≡ true → q.dead ≡ true

pub Flushed-refl : (p : Peer) → Flushed p p
Flushed-refl p = record {
  same_fd = refl;
  same_open = refl;
  same_input = refl;
  same_stream = refl;
  no_more = omega arith;
  stays_dead = λ h. h;
}

pub Flushed-dead : (p : Peer) → Flushed p (record p { dead = true })
Flushed-dead p = record {
  same_fd = refl;
  same_open = refl;
  same_input = refl;
  same_stream = refl;
  no_more = omega arith;
  stays_dead = λ h. refl;
}

pub Flushed-trans : (p q r : Peer) → Flushed p q → Flushed q r → Flushed p r
Flushed-trans p q r h k = record {
  same_fd = k.same_fd ∙ h.same_fd;
  same_open = k.same_open ∙ h.same_open;
  same_input = k.same_input ∙ h.same_input;
  same_stream = k.same_stream ∙ h.same_stream;
  no_more = omega (arith, h.no_more, k.no_more);
  stays_dead = λ e. k.stays_dead (h.stays_dead e);
}

take-drop {ℓ} : {A : Type ℓ} (n : ℕ) (xs : List A) → take n xs ++ drop n xs ≡ xs
take-drop zero xs = refl
take-drop (suc n) [] = refl
take-drop (suc n) (x ∷ xs) = ap (◌∷◌ x) (take-drop n xs)

take_up-Flushed : (r : Sent) (p : Peer) → Flushed p (take_up r p).1
unfolding take_up
take_up-Flushed would_block p = Flushed-refl p
take_up-Flushed broken p = Flushed-dead p
take_up-Flushed (took zero) p = Flushed-dead p
take_up-Flushed (took (suc n)) p = record {
  same_fd = refl;
  same_open = refl;
  same_input = refl;
  same_stream =
      append_assoc p.sent (take (suc n) p.out) (drop (suc n) p.out)
      ∙ ap (p.sent ++◌) (take-drop (suc n) p.out);
  no_more = omega (arith, length-drop (suc n) p.out);
  stays_dead = λ h. h;
}

-- A call that goes on has taken a byte.
take_up_takes :
    (r : Sent) (p : Peer)
    → (take_up r p).0 ≡ true
    → 0 < length p.out
    → length (take_up r p).1.out < length p.out
unfolding take_up
take_up_takes would_block p h k = absurd cc
take_up_takes broken p h k = absurd cc
take_up_takes (took zero) p h k = absurd cc
take_up_takes (took (suc n)) p h k = omega (arith, length-drop (suc n) p.out)

-- The call is counted.
Flushed-counted : (p : Peer) → Flushed p (record p { sends = suc p.sends })
Flushed-counted p = record {
  same_fd = refl;
  same_open = refl;
  same_input = refl;
  same_stream = refl;
  no_more = omega arith;
  stays_dead = λ h. h;
}

module _ (send : ℕ → ℕ → Bytes → Sent) where
  flush_loop-Flushed : (fuel : ℕ) (p : Peer) → Flushed p (flush_loop send fuel p)
  unfolding flush_loop
  flush_loop-Flushed zero p = Flushed-refl p
  flush_loop-Flushed (suc fuel) p =
      let next : Peer = record p { sends = suc p.sends } in
      let r = take_up (send p.fd p.sends p.out) next in
      let once = Flushed-trans p next r.1 (Flushed-counted p) (take_up-Flushed _ next) in
      if-P (Flushed p) (length p.out == 0) _ _
        (λ h. if-P (Flushed p) p.serve_only _ _ (λ h. Flushed-dead p) (λ h. Flushed-refl p))
        (λ h.
          if-P (Flushed p) r.0 _ _ (λ h. Flushed-trans p r.1 _ once (flush_loop-Flushed fuel r.1))
            (λ h. once))

  -- More fuel than bytes is enough: any two such amounts give the same.
  flush_loop_fuel :
      (fuel other : ℕ) (p : Peer)
      → length p.out < fuel
      → length p.out < other
      → flush_loop send fuel p ≡ flush_loop send other p
  unfolding flush_loop
  flush_loop_fuel zero other p h k = absurd (omega arith)
  flush_loop_fuel (suc fuel) zero p h k = absurd (omega arith)
  flush_loop_fuel (suc fuel) (suc other) p h k =
      let next : Peer = record p { sends = suc p.sends } in
      let r = take_up (send p.fd p.sends p.out) next in
      elim (Bool-cases (length p.out == 0)) [
        | inl empty ↦ rw empty refl
        | inr full ↦ elim (Bool-cases r.0) [
          | inr last ↦ rw (full, last) refl
          | inl on ↦
              let less = take_up_takes (send p.fd p.sends p.out) next on (ground arith) in
              rw (full, on) (flush_loop_fuel fuel other r.1 (omega arith) (omega arith))
        ]
      ]

  pub flush-Flushed : (p : Peer) → Flushed p (flush send p)
  unfolding flush
  flush-Flushed p = flush_loop-Flushed (suc (length p.out)) p
