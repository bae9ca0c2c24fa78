-- ===== src/Modules/Networking.antt =====
-- src/modules/networking/networking_module.c: the ring of samples. Its capacity, a megabyte divided by
-- the size of a sample, is the platform's, and a parameter; a sample is a value that the ring moves.
pub mod Latest
use miniweb.Prelude.{
  ℕ, zero, suc, ◌+◌, ◌-◌, ◌%◌, Bool, true, false, Option, none, some, List, [], ◌∷◌, ◌==◌, ltb,
  if◌then◌else◌, store,
}

-- `buf` is NULL before `networking_ring_init`; then its slots are not yet written.
pub record NetworkingRing (S : Type 0) : Type 0 where
  pub buf : Option (ℕ → Option S)
  pub head : ℕ
  pub count : ℕ

module _ {S : Type 0} where
  -- The flag is whether `malloc` gives a block, and so is the result; `false` is -1.
  unfoldable pub networking_ring_init : Bool → NetworkingRing S → Bool × NetworkingRing S
  networking_ring_init false r = (false, record r { buf = none })
  networking_ring_init true r = (true, record { buf = some (λ i. none); head = 0; count = 0 })

  -- The callers push only into a ring that is initialised; another is left as it is here.
  unfoldable pub networking_ring_push : ℕ → NetworkingRing S → S → NetworkingRing S
  networking_ring_push capacity r s = elim r.buf [
    | none ↦ r
    | some buf ↦ record {
      buf = some (store buf r.head (some s));
      head = (r.head + 1) % capacity;
      count = if ltb r.count capacity then r.count + 1 else r.count;
    }
  ]

  unfoldable pub networking_ring_last : ℕ → NetworkingRing S → Option S
  networking_ring_last capacity r = elim r.buf [
    | none ↦ none
    | some buf ↦ if r.count == 0 then none else buf ((r.head + capacity - 1) % capacity)
  ]
