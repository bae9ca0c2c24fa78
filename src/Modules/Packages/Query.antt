-- ===== src/Modules/Packages/Query.antt =====
-- The value that a query gives to a key.
use miniweb.Prelude.{
  ℕ, ◌≡◌, ◌≢◌, refl, Bool, true, false, Option, none, some, List, [], ◌∷◌, ◌++◌, Bytes, arith, All,
  str_eq, ◌<◌, if◌then◌else◌,
}
use miniweb.Modules.Packages.{
  split_at, entries, query_loop, query_of, decoded_value, get_query_value,
}

-- A query's entries, each a name and an encoded value.
abbrev pub Entries : Type 0
Entries = List (Bytes × Bytes)

abbrev pub entry : Bytes × Bytes → Bytes
entry e = e.0 ++ b'=' ∷ e.1

abbrev pub written : Entries → Bytes
written [] = []
written (e ∷ []) = entry e
written (e ∷ f ∷ es) = entry e ++ b'&' ∷ written (f ∷ es)

-- The encoded value of the first entry with the name.
abbrev pub first_value : Bytes → Entries → Option Bytes
first_value key [] = none
first_value key (e ∷ es) = if str_eq e.0 key then some e.1 else first_value key es

abbrev pub then_decode : ℕ → Option Bytes → Option Bytes
then_decode n none = none
then_decode n (some encoded) = decoded_value n encoded

abbrev pub Free : ℕ → Bytes → Type 0
Free x = All (λ c. c ≢ x)

-- No name holds `=` or `&`, and no value holds `&`.
abbrev pub AreEntries : Entries → Type 0
AreEntries [] = Unit
AreEntries (e ∷ es) = (Free b'=' e.0 × Free b'&' e.0 × Free b'&' e.1) × AreEntries es

split_at-append :
    (c : ℕ) (front back : Bytes)
    → Free c front
    → split_at c (front ++ c ∷ back) ≡ some (front, back)
unfolding split_at
split_at-append c [] back h = ground arith
split_at-append c (x ∷ front) back h = ground (arith, h.0, split_at-append c front back h.1)

entries-last : (s : Bytes) → Free b'&' s → entries s ≡ s ∷ []
unfolding entries
entries-last [] h = refl
entries-last (c ∷ s) h = ground (arith, h.0, entries-last s h.1)

entries-append : (s rest : Bytes) → Free b'&' s → entries (s ++ b'&' ∷ rest) ≡ s ∷ entries rest
unfolding entries
entries-append [] rest h = ground arith
entries-append (c ∷ s) rest h = ground (arith, h.0, entries-append s rest h.1)

entry-Free : (s t : Bytes) → Free b'&' s → Free b'&' t → Free b'&' (s ++ b'=' ∷ t)
entry-Free [] t h k = (ground arith, k)
entry-Free (c ∷ s) t h k = (h.0, entry-Free s t h.1 k)

query_loop-entry :
    (key : Bytes) (n : ℕ) (e : Bytes × Bytes) (es : List Bytes)
    → Free b'=' e.0
    → query_loop key n (entry e ∷ es)
      ≡ (if str_eq e.0 key then decoded_value n e.1 else query_loop key n es)
unfolding query_loop
query_loop-entry key n e es h = ground (arith, split_at-append b'=' e.0 e.1 h)

pick :
    (n : ℕ) (b : Bool) (v : Bytes) (o : Option Bytes)
    → (if b then decoded_value n v else then_decode n o) ≡ then_decode n (if b then some v else o)
pick n true v o = refl
pick n false v o = refl

loop-written :
    (key : Bytes) (n : ℕ) (es : Entries)
    → AreEntries es
    → query_loop key n (entries (written es)) ≡ then_decode n (first_value key es)
unfolding query_loop entries split_at
loop-written key n [] h = refl
loop-written key n (e ∷ []) h =
    rw (entries-last (entry e) (entry-Free e.0 e.1 h.0.1 h.0.2), query_loop-entry key n e [] h.0.0)
      (pick n (str_eq e.0 key) e.1 none)
loop-written key n (e ∷ f ∷ es) h =
    rw
      (
        entries-append (entry e) (written (f ∷ es)) (entry-Free e.0 e.1 h.0.1 h.0.2),
        query_loop-entry key n e (entries (written (f ∷ es))) h.0.0,
        loop-written key n (f ∷ es) h.1,
      )
      (pick n (str_eq e.0 key) e.1 (first_value key (f ∷ es)))

-- Of a URL whose query is a list of entries, with no `?` before it, no `=` or `&` in a name and no `&`
-- in a value, the value of the first entry with the key is found and decoded into a buffer that is not
-- empty; there is no value if no entry has the key.
pub get_query_value-first :
    (path : Bytes) (es : Entries) (key : Bytes) (n : ℕ)
    → Free b'?' path
    → AreEntries es
    → 0 < n
    → get_query_value (some (path ++ b'?' ∷ written es)) key n ≡ then_decode n (first_value key es)
unfolding get_query_value query_of
get_query_value-first path es key n p h room =
    ground (arith, split_at-append b'?' path (written es) p, loop-written key n es h)
