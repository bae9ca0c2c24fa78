-- ===== src/Router/Static/Confined.antt =====
-- Which files a request for a static file can reach.
use miniweb.Prelude.{
  ℕ, ◌+◌, ◌<◌, ◌≡◌, ◌≢◌, refl, sym, ap, Bool, true, false, not, ◌&&◌, ◌||◌, Option, none, some, [],
  ◌∷◌, ◌++◌, Bytes, codes, Split, before, split_text, strip_prefix, is_some, ◌==◌, leb, ltb, length,
  length-append, arith, Bool-cases, if_both, ◌⊎◌, inl, inr, if◌then◌else◌,
}
use mathlib.Core.List.{append_assoc, append-nil}
use miniweb.Router.Static.{
  StaticReply, sends_error, sends_file, redirects, lists, contains, path_size, index_or, reply_dir,
  reply_found, reply_relative, reply_path, static_handler, before_query, or_dot, without_slash,
  ends_with_slash,
}

-- No two bytes `d` behind one another.
abbrev pub HasNoPair : ℕ → Bytes → Type 0
HasNoPair d [] = Unit
HasNoPair d (c ∷ []) = Unit
HasNoPair d (c ∷ e ∷ s) = (c ≡ d → e ≢ d) × HasNoPair d (e ∷ s)

abbrev pair : ℕ → Bytes
pair d = d ∷ d ∷ []

is_some-before : (c : ℕ) (o : Split) → is_some (before c o) ≡ is_some o
is_some-before c none = refl
is_some-before c (some (front, back)) = refl

contains-step :
    (d c e : ℕ) (s : Bytes)
    → contains (pair d) (c ∷ e ∷ s) ≡ ((d == c && d == e) || contains (pair d) (e ∷ s))
unfolding contains split_text strip_prefix
contains-step d c e s = ground (arith, is_some-before c (split_text (pair d) (e ∷ s)))

contains-HasNoPair : (d : ℕ) (s : Bytes) → contains (pair d) s ≡ false → HasNoPair d s
contains-HasNoPair d [] h = tt
contains-HasNoPair d (c ∷ []) h = tt
contains-HasNoPair d (c ∷ e ∷ s) h =
    let step = contains-step d c e s in
    (λ p q. ground (arith, step, h, p, q), contains-HasNoPair d (e ∷ s) (ground (arith, step, h)))

-- The file is in the directory: its path is the directory's name, a path with no "..", and the name of
-- an index file or nothing.
abbrev pub IsInside : Bytes → Bytes → Type 0
IsInside static_dir path =
    (rel : Bytes) × (name : Bytes) × (path ≡ static_dir ++ (codes "/" ++ (rel ++ name)))
    × HasNoPair b'.' rel
    × ((name ≡ []) ⊎ (name ≡ codes "/index.html") ⊎ (name ≡ codes "/index.htm"))

-- What the handler may do: files, listings and redirects.
abbrev pub IsConfined : Bytes → StaticReply → Type 0
IsConfined static_dir (sends_error code text) = Unit
IsConfined static_dir (sends_file path mime) = IsInside static_dir path × (length path < path_size)
IsConfined static_dir (redirects code location) = length location < path_size
IsConfined static_dir (lists req_path path) = IsInside static_dir path × (length path < path_size)

not_le : {a b : ℕ} → leb a b ≡ false → b < a
not_le h = ground arith

suffix-cases :
    (name : Bytes)
    → (name ≡ codes "index.html") ⊎ (name ≡ codes "index.htm")
    → (codes "/" ++ name ≡ codes "/index.html") ⊎ (codes "/" ++ name ≡ codes "/index.htm")
suffix-cases name (inl e) = inl (ap (◌∷◌ b'/') e)
suffix-cases name (inr e) = inr (ap (◌∷◌ b'/') e)

relative_path-IsInside :
    (static_dir rel : Bytes)
    → HasNoPair b'.' rel
    → IsInside static_dir (static_dir ++ (codes "/" ++ rel))
relative_path-IsInside static_dir rel clean =
    (rel, [], ap (λ r. static_dir ++ (codes "/" ++ r)) (sym (append-nil rel)), clean, inl refl)

module _ (static_dir : Bytes) (autoindex : Bool) (stat : Bytes → Option Bool)
    (access : Bytes → Bool) where
  index_or-IsConfined :
      (rel name : Bytes) (other : StaticReply)
      → HasNoPair b'.' rel
      → (name ≡ codes "index.html") ⊎ (name ≡ codes "index.htm")
      → IsConfined static_dir other
      → IsConfined static_dir
          (index_or static_dir autoindex stat access (static_dir ++ (codes "/" ++ rel)) name other)
  unfolding index_or
  index_or-IsConfined rel name other clean which h =
      let path : Bytes = static_dir ++ (codes "/" ++ rel) in
      let index : Bytes = path ++ (codes "/" ++ name) in
      elim (Bool-cases (ltb (length index) path_size && access index)) [
        | inr other_one ↦ rw other_one h
        | inl taken ↦ rw taken (
          (
            rel,
            codes "/" ++ name,
            append_assoc static_dir (codes "/" ++ rel) (codes "/" ++ name),
            clean,
            inr (suffix-cases name which),
          ),
          ground (arith, taken),
        )
      ]

  redirect-IsConfined :
      (req_path : Bytes)
      → IsConfined static_dir (
          if leb path_size (length req_path + 1)
          then sends_error 414 (codes "URI Too Long")
          else redirects 301 (req_path ++ codes "/"))
  redirect-IsConfined req_path = elim (Bool-cases (leb path_size (length req_path + 1))) [
    | inl long ↦ rw long tt
    | inr short ↦ rw short (omega (arith, length-append req_path (codes "/"), not_le short))
  ]

  reply_dir-IsConfined :
      (req_path rel : Bytes)
      → HasNoPair b'.' rel
      → length (static_dir ++ (codes "/" ++ rel)) < path_size
      → IsConfined static_dir
          (reply_dir static_dir autoindex stat access req_path (static_dir ++ (codes "/" ++ rel)))
  unfolding reply_dir
  reply_dir-IsConfined req_path rel clean short =
      let path : Bytes = static_dir ++ (codes "/" ++ rel) in
      let listed : IsConfined static_dir (lists req_path path) =
        (relative_path-IsInside static_dir rel clean, short) in
      if_both (IsConfined static_dir) (not autoindex) _ _ tt
        (elim (Bool-cases (ends_with_slash req_path)) [
          | inl slash ↦ rw slash (
              index_or-IsConfined rel (codes "index.html") _ clean (inl refl) (
                index_or-IsConfined rel (codes "index.htm") (lists req_path path) clean (inr refl)
                  listed))
          | inr none_there ↦ rw none_there (redirect-IsConfined req_path)
        ])

  reply_found-IsConfined :
      (req_path rel : Bytes) (o : Option Bool)
      → HasNoPair b'.' rel
      → length (static_dir ++ (codes "/" ++ rel)) < path_size
      → IsConfined static_dir (
          reply_found static_dir autoindex stat access req_path rel
            (static_dir ++ (codes "/" ++ rel))
            o)
  unfolding reply_found
  reply_found-IsConfined req_path rel none clean short = tt
  reply_found-IsConfined req_path rel (some true) clean short =
      reply_dir-IsConfined req_path rel clean short
  reply_found-IsConfined req_path rel (some false) clean short =
      (relative_path-IsInside static_dir rel clean, short)

  reply_relative-IsConfined :
      (req_path rel : Bytes)
      → IsConfined static_dir (reply_relative static_dir autoindex stat access req_path rel)
  unfolding reply_relative
  reply_relative-IsConfined req_path rel =
      let path : Bytes = static_dir ++ (codes "/" ++ rel) in
      elim (Bool-cases (contains (codes "..") rel || contains (codes "//") rel)) [
        | inl bad ↦ rw bad tt
        | inr good ↦ rw good (elim (Bool-cases (leb path_size (length path))) [
          | inl long ↦ rw long tt
          | inr short ↦ rw short (
              reply_found-IsConfined req_path rel (stat path)
                (contains-HasNoPair b'.' rel (ground (arith, good))) (not_le short))
        ])
      ]

  reply_path-IsConfined :
      (req_path : Bytes) (o : Option Bytes)
      → IsConfined static_dir (reply_path static_dir autoindex stat access req_path o)
  unfolding reply_path
  reply_path-IsConfined req_path none = tt
  reply_path-IsConfined req_path (some behind) =
      reply_relative-IsConfined req_path (or_dot (without_slash behind))

  -- Whatever the URL is and whatever the file system answers, the file that static_handler sends and the
  -- directory that it lists have the path of the static directory, a '/', a path with no "..", and at
  -- most the name of an index file behind it; no path and no redirect fills its buffer.
  pub static_handler-IsConfined :
      (url : Bytes) → IsConfined static_dir (static_handler static_dir autoindex stat access url)
  unfolding static_handler
  static_handler-IsConfined url =
      let req_path = before_query url in
      if_both (IsConfined static_dir) (length req_path == 0 || leb path_size (length req_path))
        (sends_error 400 (codes "Bad Request")) _ tt
        (reply_path-IsConfined req_path (strip_prefix (codes "/static") req_path))
