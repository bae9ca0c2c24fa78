-- ===== src/Modules/Man/RenderCache/Recent.antt =====
-- The pages that come from the cache of rendered pages.
use miniweb.Prelude.{
  ℕ, zero, suc, ◌-◌, ◌≤◌, ◌≡◌, subst, Bool, true, false, not, ◌&&◌, Option, none, some, List, [],
  ◌∷◌, Bytes, ◌==◌, str_eq, str_eq→eq, All, arith, Bool-cases, if_both, inl, inr, is_some, ltb,
  store, map,
}
use miniweb.Http.FileCache.{repeat}
use miniweb.Modules.Man.RenderCache.{
  RenderSlot, RenderCache, Page, empty_slot, emptied_slot, man_cache, man_shards, man_slots,
  man_ttl, man_render_cache_key, man_render_cache_shard, holds_key, get_slots, man_render_cache_get,
  put_slot, put_at_slot, put_target_slot, man_render_cache_put, man_render_cache_cleanup,
}

-- Calls, the last one first.
pub data ManCall : Type 0 where
  gets : Page → Bool → ℕ → ManCall
  puts : Page → Bytes → Bool → ℕ → ManCall
  cleans_up : ManCall

unfoldable pub man_step : ManCall → RenderCache → RenderCache
man_step (gets p has_memory now) cache = (man_render_cache_get p has_memory now cache).1
man_step (puts p body has_memory now) cache = man_render_cache_put p body has_memory now cache
man_step cleans_up cache = man_render_cache_cleanup cache

unfoldable pub man_run : List ManCall → RenderCache
man_run [] = man_cache
man_run (c ∷ cs) = man_step c (man_run cs)

-- A call of the history put this text under this key at this time.
pub data PutBy : List ManCall → Bytes → Bytes → ℕ → Type 0 where
  here :
      {cs : List ManCall} {p : Page} {body : Bytes} {has_memory : Bool} {now : ℕ}
      → PutBy (puts p body has_memory now ∷ cs) (man_render_cache_key p) body now
  there :
      {c : ManCall} {cs : List ManCall} {key body : Bytes} {time : ℕ}
      → PutBy cs key body time
      → PutBy (c ∷ cs) key body time

IsPut : List ManCall → RenderSlot → Type 0
IsPut cs s = (body : Bytes) → s.body ≡ some body → PutBy cs s.key body s.inserted

All-there :
    (c : ManCall) (cs : List ManCall) (ss : List RenderSlot)
    → All (IsPut cs) ss
    → All (IsPut (c ∷ cs)) ss
unfolding IsPut
All-there c cs [] h = tt
All-there c cs (s ∷ ss) h = (λ body e. there (h.0 body e), All-there c cs ss h.1)

emptied-IsPut : (cs : List ManCall) (s : RenderSlot) → IsPut cs (record s { body = none })
unfolding IsPut
emptied-IsPut cs s body e = cc

get_slots-IsPut :
    (cs : List ManCall) (key : Bytes) (has_memory : Bool) (now : ℕ) (ss : List RenderSlot)
    → All (IsPut cs) ss
    → All (IsPut cs) (get_slots key has_memory now ss).1
unfolding get_slots
get_slots-IsPut cs key has_memory now [] h = tt
get_slots-IsPut cs key has_memory now (s ∷ ss) h =
    if_both (λ (r : Option Bytes × List RenderSlot). All (IsPut cs) r.1) (not (holds_key key s)) _ _
      (h.0, get_slots-IsPut cs key has_memory now ss h.1)
      (if_both (λ (r : Option Bytes × List RenderSlot). All (IsPut cs) r.1)
        (ltb man_ttl (now - s.inserted)) _ _ (emptied-IsPut cs s, h.1) h)

put_at_slot-IsPut :
    (cs : List ManCall) (f : RenderSlot → RenderSlot) (i : ℕ) (ss : List RenderSlot)
    → ((s : RenderSlot) → IsPut cs (f s))
    → All (IsPut cs) ss
    → All (IsPut cs) (put_at_slot i f ss)
unfolding put_at_slot
put_at_slot-IsPut cs f i [] g h = tt
put_at_slot-IsPut cs f zero (s ∷ ss) g h = (g s, h.1)
put_at_slot-IsPut cs f (suc i) (s ∷ ss) g h = (h.0, put_at_slot-IsPut cs f i ss g h.1)

put_target_slot-IsPut :
    (cs : List ManCall) (f : RenderSlot → RenderSlot) (o : Option ℕ) (ss : List RenderSlot)
    → ((s : RenderSlot) → IsPut cs (f s))
    → All (IsPut cs) ss
    → All (IsPut cs) (put_target_slot o f ss)
put_target_slot-IsPut cs f none ss g h = h
put_target_slot-IsPut cs f (some i) ss g h = put_at_slot-IsPut cs f i ss g h

put_slot-IsPut :
    (cs : List ManCall) (p : Page) (body : Bytes) (has_memory : Bool) (now : ℕ) (s : RenderSlot)
    → IsPut
        (puts p body has_memory now ∷ cs)
        (put_slot (man_render_cache_key p) body has_memory now s)
unfolding put_slot IsPut
put_slot-IsPut cs p body true now s text e =
    subst (λ b. PutBy (puts p body true now ∷ cs) (man_render_cache_key p) b now) (cc) here
put_slot-IsPut cs p body false now s text e = cc

stored :
    (P : List RenderSlot → Type 0) (cache : RenderCache) (si i : ℕ) (ss : List RenderSlot)
    → P ss
    → P (cache i)
    → P (store cache si ss i)
stored P cache si i ss new old = if_both P (si == i) ss (cache i) new old

cleared-IsPut : (cs : List ManCall) (ss : List RenderSlot) → All (IsPut cs) (map emptied_slot ss)
unfolding IsPut
cleared-IsPut cs [] = tt
cleared-IsPut cs (s ∷ ss) = (λ body e. cc, cleared-IsPut cs ss)

zeroed-IsPut : (n : ℕ) → All (IsPut []) (repeat n empty_slot)
unfolding repeat IsPut
zeroed-IsPut zero = tt
zeroed-IsPut (suc n) = (λ body e. cc, zeroed-IsPut n)

run-IsPut : (cs : List ManCall) (i : ℕ) → All (IsPut cs) (man_run cs i)
unfolding man_run man_step man_cache man_render_cache_get man_render_cache_put
    man_render_cache_cleanup
run-IsPut [] i = zeroed-IsPut man_slots
run-IsPut (gets p has_memory now ∷ cs) i =
    let si = man_render_cache_shard (man_render_cache_key p) in
    let old = λ (j : ℕ). All-there (gets p has_memory now) cs (man_run cs j) (run-IsPut cs j) in
    stored (All (IsPut (gets p has_memory now ∷ cs))) (man_run cs) si i _
      (get_slots-IsPut (gets p has_memory now ∷ cs) (man_render_cache_key p) has_memory now
        (man_run cs si) (old si))
      (old i)
run-IsPut (puts p [] has_memory now ∷ cs) i = All-there _ cs (man_run cs i) (run-IsPut cs i)
run-IsPut (puts p (c ∷ body) has_memory now ∷ cs) i =
    let call = puts p (c ∷ body) has_memory now in
    let si = man_render_cache_shard (man_render_cache_key p) in
    let old = λ (j : ℕ). All-there call cs (man_run cs j) (run-IsPut cs j) in
    stored (All (IsPut (call ∷ cs))) (man_run cs) si i _
      (put_target_slot-IsPut (call ∷ cs) _ _ (man_run cs si)
        (put_slot-IsPut cs p (c ∷ body) has_memory now) (old si))
      (old i)
run-IsPut (cleans_up ∷ cs) i =
    if_both (All (IsPut (cleans_up ∷ cs))) (ltb i man_shards) _ _
      (cleared-IsPut (cleans_up ∷ cs) (man_run cs i))
      (All-there cleans_up cs (man_run cs i) (run-IsPut cs i))

-- What a lookup in a shard gives was put there under its key, and is not too old.
found-IsPut :
    (cs : List ManCall) (key : Bytes) (has_memory : Bool) (now : ℕ) (ss : List RenderSlot)
    (text : Bytes)
    → All (IsPut cs) ss
    → (get_slots key has_memory now ss).0 ≡ some text
    → (time : ℕ) × PutBy cs key text time × (now - time ≤ man_ttl)
unfolding get_slots IsPut holds_key
found-IsPut cs key has_memory now [] text h e = cc
found-IsPut cs key has_memory now (s ∷ ss) text h e =
    elim (Bool-cases (is_some s.body && str_eq s.key key)) [
      | inr other ↦ found-IsPut cs key has_memory now ss text h.1 (rw other at e)
      | inl held ↦
          let same : str_eq s.key key ≡ true = ground (arith, held) in
          elim (Bool-cases (ltb man_ttl (now - s.inserted))) [
            | inl old ↦ absurd (ground (arith, held, old, e))
            | inr young ↦ (
              s.inserted,
              subst (λ k. PutBy cs k text s.inserted) (str_eq→eq s.key key same)
                  (h.0 text (ground (arith, held, young, e))),
              ground (arith, young),
            )
          ]
    ]

-- After any history of calls, a page that man_render_cache_get gives was put under the same key at most
-- 600 seconds before.
pub man_get_recent :
    (cs : List ManCall) (p : Page) (has_memory : Bool) (now : ℕ) (text : Bytes)
    → (man_render_cache_get p has_memory now (man_run cs)).0 ≡ some text
    → (time : ℕ) × PutBy cs (man_render_cache_key p) text time × (now - time ≤ man_ttl)
unfolding man_render_cache_get
man_get_recent cs p has_memory now text e =
    let key = man_render_cache_key p in
    found-IsPut cs key has_memory now (man_run cs (man_render_cache_shard key)) text
      (run-IsPut cs (man_render_cache_shard key)) e
