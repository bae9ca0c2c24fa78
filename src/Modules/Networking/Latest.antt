-- ===== src/Modules/Networking/Latest.antt =====
-- What the ring gives back.
use miniweb.Prelude.{
  ℕ, ◌+◌, ◌-◌, ◌%◌, ◌<◌, ◌≡◌, refl, ap, ◌∙◌, true, Option, none, some, List, [], ◌∷◌, ltb, length,
  if◌then◌else◌, store, arith, inl, inr, Bool-cases,
}
use native.Mathlib.Nat.{mod-lt, mod-eq_of_lt, mod_self, add-mod_right}
use miniweb.Modules.Networking.{
  NetworkingRing, networking_ring_init, networking_ring_push, networking_ring_last,
}

-- The slot behind `head` is the one before it.
behind : (n h : ℕ) → h < n → ((h + 1) % n + n - 1) % n ≡ h
behind n h small = elim (Bool-cases (ltb (h + 1) n)) [
  | inl inside ↦
      let next : (h + 1) % n ≡ h + 1 = mod-eq_of_lt (ground (arith, inside)) in
      rw next (ap (λ k. k % n) (omega arith) ∙ (add-mod_right h n ∙ mod-eq_of_lt small))
  | inr last ↦
      let whole : h + 1 ≡ n = ground (arith, last) in
      rw (whole, mod_self n) (mod-eq_of_lt (omega arith) ∙ omega arith)
]

module _ {S : Type 0} where
  -- The ring after samples, the last one first.
  pub pushes : ℕ → NetworkingRing S → List S → NetworkingRing S
  pushes capacity r [] = r
  pushes capacity r (s ∷ ss) = networking_ring_push capacity (pushes capacity r ss) s

  record Holds (capacity : ℕ) (ss : List S) (r : NetworkingRing S) : Type 0 where
    buf : ℕ → Option S
    allocated : r.buf ≡ some buf
    head_in : r.head < capacity
    counted : r.count ≡ (if ltb (length ss) capacity then length ss else capacity)

  module _ (capacity : ℕ) (room : 0 < capacity) where
    push-Holds :
        (ss : List S) (r : NetworkingRing S) (s : S)
        → Holds capacity ss r
        → Holds capacity (s ∷ ss) (networking_ring_push capacity r s)
    unfolding networking_ring_push
    push-Holds ss r s v = rw v.allocated (record {
      buf = store v.buf r.head (some s);
      allocated = refl;
      head_in = mod-lt (r.head + 1) room;
      counted = ground (arith, v.counted);
    })

    pushes-Holds :
        (r : NetworkingRing S) (ss : List S)
        → Holds capacity [] r
        → Holds capacity ss (pushes capacity r ss)
    unfolding pushes
    pushes-Holds r [] v = v
    pushes-Holds r (s ∷ ss) v = push-Holds ss (pushes capacity r ss) s (pushes-Holds r ss v)

    push-last :
        (ss : List S) (r : NetworkingRing S) (s : S)
        → Holds capacity ss r
        → networking_ring_last capacity (networking_ring_push capacity r s) ≡ some s
    unfolding networking_ring_push networking_ring_last
    push-last ss r s v =
        rw (v.allocated, behind capacity r.head v.head_in) (ground (arith, v.counted))

    init-Holds : (r : NetworkingRing S) → Holds capacity [] (networking_ring_init true r).1
    unfolding networking_ring_init
    init-Holds r = record {
      buf = λ i. none;
      allocated = refl;
      head_in = room;
      counted = ground arith;
    }

    -- After any samples in a fresh ring, the last one is given back, and the count is the number of the
    -- samples, up to the capacity.
    pub ring_latest :
        (r : NetworkingRing S) (ss : List S) (s : S)
        → let q = pushes capacity (networking_ring_init true r).1 (s ∷ ss) in
          (networking_ring_last capacity q ≡ some s)
          × (q.count ≡ (if ltb (length ss + 1) capacity then length ss + 1 else capacity))
    unfolding pushes
    ring_latest r ss s =
        let v = pushes-Holds (networking_ring_init true r).1 ss (init-Holds r) in
        (push-last ss _ s v, (push-Holds ss _ s v).counted ∙ ground arith)
