-- ===== src/Http/ResponsePool/Shard.antt =====
-- The free list of one shard, against the items that are handed out.
use miniweb.Prelude.{
  ℕ, zero, suc, ◌+◌, ◌-◌, if◌then◌else◌, ◌<◌, ◌≤◌, ◌≡◌, refl, Bool, true, false, none, some, ltb,
  store, arith, ◌⊎◌, inl, inr, Bool-cases,
}
use miniweb.Http.ResponsePool.{
  PoolShard, Pools, Handle, shard_count, shard_size, fill_stack, response_pool_init, take_item,
  give_item, http_response_pool_release,
}

-- How many of the first `n` items are out.
pub count_out : ℕ → (ℕ → Bool) → ℕ
count_out zero out = 0
count_out (suc n) out = if out n then suc (count_out n out) else count_out n out

-- The free items are in range, distinct and not handed out, an item that is out is in range and carries
-- the index of its shard, and every item is either free or out.
pub record Fits (shard : ℕ) (s : PoolShard) (out : ℕ → Bool) : Type 0 where
  pub bounded : s.free_top ≤ shard_size
  pub free_lt : (k : ℕ) → k < s.free_top → s.free_stack k < shard_size
  pub free_distinct :
      (j k : ℕ) → j < s.free_top → k < s.free_top → s.free_stack j ≡ s.free_stack k → j ≡ k
  pub free_unused : (k : ℕ) → k < s.free_top → out (s.free_stack k) ≡ false
  pub out_lt : (i : ℕ) → out i ≡ true → i < shard_size
  pub out_here : (i : ℕ) → out i ≡ true → s.pool_shard_idx i ≡ shard
  pub all_items : s.free_top + count_out shard_size out ≡ shard_size

-- So it is in a shard once that is initialised; before, nothing is out.
abbrev pub Holds : ℕ → PoolShard → (ℕ → Bool) → Type 0
Holds shard s out =
    ((s.initialized ≡ false) × ((i : ℕ) → out i ≡ false))
    ⊎ ((s.initialized ≡ true) × Fits shard s out)

count_out-none : (n : ℕ) (out : ℕ → Bool) → ((i : ℕ) → out i ≡ false) → count_out n out ≡ 0
unfolding count_out
count_out-none zero out h = refl
count_out-none (suc n) out h = rw (h n) (count_out-none n out h)

-- A write at or above the bound does not count.
count_out-store_above :
    (n : ℕ) (out : ℕ → Bool) (i : ℕ) (b : Bool)
    → n ≤ i
    → count_out n (store out i b) ≡ count_out n out
unfolding count_out
count_out-store_above zero out i b h = refl
count_out-store_above (suc n) out i b h = ground (arith, count_out-store_above n out i b)

count_out-store-true :
    (n : ℕ) (out : ℕ → Bool) (i : ℕ)
    → i < n
    → out i ≡ false
    → count_out n (store out i true) ≡ suc (count_out n out)
unfolding count_out
count_out-store-true zero out i h e = absurd (omega arith)
count_out-store-true (suc n) out i h e =
    ground (arith, count_out-store-true n out i, count_out-store_above n out i true)

count_out-store-false :
    (n : ℕ) (out : ℕ → Bool) (i : ℕ)
    → i < n
    → out i ≡ true
    → suc (count_out n (store out i false)) ≡ count_out n out
unfolding count_out
count_out-store-false zero out i h e = absurd (omega arith)
count_out-store-false (suc n) out i h e =
    ground (arith, count_out-store-false n out i, count_out-store_above n out i false)

fill_stack_lem : (n : ℕ) (a : ℕ → ℕ) (j : ℕ) → j < n → fill_stack n a j ≡ shard_size - 1 - j
unfolding fill_stack
fill_stack_lem zero a j h = absurd (omega arith)
fill_stack_lem (suc n) a j h = ground (arith, fill_stack_lem n a j)

full-Fits :
    (shard : ℕ) (s : PoolShard) (out : ℕ → Bool)
    → ((i : ℕ) → out i ≡ false)
    → Fits shard
        (record s {
          free_top = shard_size;
          free_stack = fill_stack shard_size s.free_stack;
          initialized = true;
        })
        out
full-Fits shard s out none_out =
    let filled = fill_stack_lem shard_size s.free_stack in
    record {
      bounded = omega arith;
      free_lt = λ k h. omega (arith, filled k h);
      free_distinct = λ j k h g e. omega (arith, filled j h, filled k g);
      free_unused = λ k h. none_out _;
      out_lt = λ i e. absurd (ground (arith, none_out i));
      out_here = λ i e. absurd (ground (arith, none_out i));
      all_items = omega (arith, count_out-none shard_size out none_out);
    }

pub init-Fits :
    (shard : ℕ) (s : PoolShard) (out : ℕ → Bool)
    → Holds shard s out
    → Fits shard (response_pool_init s) out × ((response_pool_init s).initialized ≡ true)
unfolding response_pool_init
init-Fits shard s out (inl (off, none_out)) = rw off (full-Fits shard s out none_out, refl)
init-Fits shard s out (inr (on, v)) = (ground (arith, on, v), ground (arith, on))

module _ (shard : ℕ) (s : PoolShard) (out : ℕ → Bool) (v : Fits shard s out) where
  abbrev top : ℕ
  top = s.free_stack (s.free_top - 1)

  taken-Fits :
      0 < s.free_top
      → Fits shard
          (record s {
            free_top = s.free_top - 1;
            pool_shard_idx = store s.pool_shard_idx top shard;
          })
          (store out top true)
  taken-Fits room = record {
    bounded = omega (arith, v.bounded);
    free_lt = λ k h. v.free_lt k (omega arith);
    free_distinct = λ j k h g e. v.free_distinct j k (omega arith) (omega arith) e;
    free_unused = λ k h. ground (arith, v.free_unused k, v.free_distinct k (s.free_top - 1));
    out_lt = λ i e. ground (arith, v.out_lt i, v.free_lt (s.free_top - 1));
    out_here = λ i e. ground (arith, v.out_here i);
    all_items = omega (
      arith,
      v.all_items,
      count_out-store-true shard_size out top (v.free_lt (s.free_top - 1) (omega arith))
          (v.free_unused (s.free_top - 1) (omega arith)),
    );
  }

  give_item-Fits : (i : ℕ) → out i ≡ true → Fits shard (give_item i s) (store out i false)
  unfolding give_item
  give_item-Fits i lent =
      let fewer = count_out-store-false shard_size out i (v.out_lt i lent) lent in
      elim (Bool-cases (ltb s.free_top shard_size)) [
        | inl room ↦ rw room (record {
          bounded = ground (arith, room);
          free_lt = λ k h. ground (arith, v.free_lt k, v.out_lt i);
          free_distinct =
              λ j k h g e. ground (arith, v.free_distinct j k, v.free_unused j, v.free_unused k);
          free_unused = λ k h. ground (arith, v.free_unused k);
          out_lt = λ j e. ground (arith, v.out_lt j);
          out_here = λ j e. ground (arith, v.out_here j);
          all_items = ground (arith, room, v.all_items, fewer);
        })
        | inr full ↦ absurd (ground (arith, full, v.all_items, fewer))
      ]

pub take_item-cases :
    (shard : ℕ) (s : PoolShard) (out : ℕ → Bool)
    → Fits shard s out
    → s.initialized ≡ true
    → ((i : ℕ) × ((take_item shard s).0 ≡ some i)
        × (out i ≡ false)
        × (i < shard_size)
        × Holds shard (take_item shard s).1 (store out i true))
      ⊎ (((take_item shard s).0 ≡ none) × Holds shard (take_item shard s).1 out)
unfolding take_item
take_item-cases shard s out v on = elim (Bool-cases (ltb 0 s.free_top)) [
  | inl room ↦ rw room (
      inl (
        top shard s out v,
        refl,
        v.free_unused (s.free_top - 1) (ground (arith, room)),
        v.free_lt (s.free_top - 1) (ground (arith, room)),
        inr (on, taken-Fits shard s out v (ground (arith, room))),
      ))
  | inr empty ↦ rw empty (inr (refl, inr (on, v)))
]

-- A release of an item that is out reaches its shard.
pub release-out :
    (h : Handle) (pools : Pools) (out : ℕ → Bool)
    → h.shard < shard_count
    → Holds h.shard (pools h.shard) out
    → out h.item ≡ true
    → http_response_pool_release (some h) pools
      ≡ (true, store pools h.shard (give_item h.item (pools h.shard)))
unfolding http_response_pool_release
release-out h pools out small (inl (off, none_out)) lent = absurd (ground (arith, none_out h.item))
release-out h pools out small (inr (on, v)) lent =
    rw (v.out_here h.item lent) (ground (arith, v.out_lt h.item))

pub given-Holds :
    (shard : ℕ) (s : PoolShard) (out : ℕ → Bool) (i : ℕ)
    → Holds shard s out
    → out i ≡ true
    → Holds shard (give_item i s) (store out i false)
unfolding give_item
given-Holds shard s out i (inl (off, none_out)) lent = absurd (ground (arith, none_out i))
given-Holds shard s out i (inr (on, v)) lent =
    inr (ground (arith, on), give_item-Fits shard s out v i lent)

pub taken-free :
    (shard : ℕ) (s : PoolShard) (out : ℕ → Bool) (i : ℕ)
    → Fits shard s out
    → (take_item shard s).0 ≡ some i
    → (out i ≡ false) × (i < shard_size)
unfolding take_item
taken-free shard s out i v e =
    (ground (arith, v.free_unused (s.free_top - 1)), ground (arith, v.free_lt (s.free_top - 1)))
