-- ===== src/Render/TemplateCache/Listing.antt =====
-- The files of a listing that the loop over the directory loads.
use miniweb.Prelude.{
  ℕ, ◌≡◌, ◌⊎◌, refl, sym, Bool, true, Option, none, some, List, [], ◌∷◌, ◌++◌, Bytes, codes, leb,
  length, ◌||◌, if_both, subst, str_eq, All, Bool-cases, inl, inr,
}
use miniweb.Render.TemplateCache.{
  TemplateEntry, DirEntry, FileStat, Loading, fails, loads, add_content, added, load_status,
  read_file_content, add_template_to_cache, load_entry, load_entries, ◌>>=◌,
}

-- The listing has a regular file of this name with this content.
pub data HasFile : List DirEntry → Bytes → Bytes → Type 0 where
  here :
      {d : DirEntry} {ds : List DirEntry} {content : Bytes} (st : FileStat)
      → d.status ≡ some st
      → st.is_regular ≡ true
      → read_file_content d.file ≡ some content
      → HasFile (d ∷ ds) d.d_name content
  there :
      {d : DirEntry} {ds : List DirEntry} {name content : Bytes}
      → HasFile ds name content
      → HasFile (d ∷ ds) name content

All-snoc :
    {A : Type 0} (P : A → Type 0) (xs : List A) (x : A) → All P xs → P x → All P (xs ++ x ∷ [])
All-snoc P [] x h k = (k, tt)
All-snoc P (y ∷ xs) x h k = (h.0, All-snoc P xs x h.1 k)

-- What a round may lead to: the same entries, or one more, which holds the file.
abbrev Adds : List TemplateEntry → DirEntry → Loading → Type 0
Adds entries d fails = Unit {0}
Adds entries d (loads es l) =
    (es ≡ entries)
    ⊎ ((e : TemplateEntry) × (es ≡ entries ++ e ∷ []) × HasFile (d ∷ []) e.filename e.content)

add_content-Adds :
    (entries : List TemplateEntry) (d : DirEntry) (st : FileStat) (o : Option Bytes)
    → d.status ≡ some st
    → st.is_regular ≡ true
    → read_file_content d.file ≡ o
    → Adds entries d (added (add_content entries d.d_name st.st_mtime d.grows d.names o))
add_content-Adds entries d st none h r e = tt
add_content-Adds entries d st (some content) h r e = elim (Bool-cases d.grows) [
  | inr no_room ↦ rw no_room tt
  | inl room ↦ rw room (elim (Bool-cases d.names) [
    | inr unnamed ↦ rw unnamed tt
    | inl named ↦ rw named (
        inr (
          record { filename = d.d_name; content = content; mtime = st.st_mtime },
          refl,
          here st h r e,
        ))
  ])
]

load_status-Adds :
    (entries : List TemplateEntry) (loaded : Bool) (d : DirEntry) (o : Option FileStat)
    → d.status ≡ o
    → Adds entries d (load_status o entries loaded d)
unfolding add_template_to_cache
load_status-Adds entries loaded d none e = inl refl
load_status-Adds entries loaded d (some st) e = elim (Bool-cases st.is_regular) [
  | inr other ↦ rw other (inl refl)
  | inl regular ↦
      rw regular (add_content-Adds entries d st (read_file_content d.file) e regular refl)
]

loads-eq :
    (m : Loading) (k : List TemplateEntry → Bool → Loading) (es : List TemplateEntry) (l : Bool)
    → (m >>= k) ≡ loads es l
    → (es' : List TemplateEntry) × (l' : Bool) × (m ≡ loads es' l') × (k es' l' ≡ loads es l)
loads-eq fails k es l h = cc
loads-eq (loads es' l') k es l h = (es', l', refl, h)

HasFile-append :
    {ds : List DirEntry} {name content : Bytes} (more : List DirEntry)
    → HasFile ds name content
    → HasFile (ds ++ more) name content
HasFile-append more (here st e r c) = here st e r c
HasFile-append more (there h) = there (HasFile-append more h)

-- The files that the entries of a loaded list are.
abbrev pub AreFiles : List DirEntry → List TemplateEntry → Type 0
AreFiles full = All (λ e. HasFile full e.filename e.content)

Adds-AreFiles :
    (full : List DirEntry) (entries es : List TemplateEntry) (d : DirEntry) (l : Bool)
    → ((name content : Bytes) → HasFile (d ∷ []) name content → HasFile full name content)
    → AreFiles full entries
    → Adds entries d (loads es l)
    → AreFiles full es
Adds-AreFiles full entries es d l up h (inl same) = subst (AreFiles full) (sym same) h
Adds-AreFiles full entries es d l up h (inr (e, more, file)) =
    subst (AreFiles full) (sym more)
      (All-snoc (λ e. HasFile full e.filename e.content) entries e h (up e.filename e.content file))

module _ (templates_dir : Bytes) (path_max : ℕ) where
  load_entry-Adds :
      (entries : List TemplateEntry) (loaded : Bool) (d : DirEntry)
      → Adds entries d (load_entry templates_dir path_max entries loaded d)
  unfolding load_entry
  load_entry-Adds entries loaded d =
      if_both (Adds entries d) (str_eq d.d_name (codes ".") || str_eq d.d_name (codes ".."))
        (loads entries loaded) _ (inl refl)
        (if_both (Adds entries d) (leb path_max (length (templates_dir ++ (codes "/" ++ d.d_name))))
          fails _ tt (load_status-Adds entries loaded d d.status refl))

  pub load_entries-HasFile :
      (full ds : List DirEntry) (entries es : List TemplateEntry) (loaded l : Bool)
      → ((name content : Bytes) → HasFile ds name content → HasFile full name content)
      → AreFiles full entries
      → load_entries templates_dir path_max entries loaded ds ≡ loads es l
      → AreFiles full es
  unfolding load_entries
  load_entries-HasFile full [] entries es loaded l up h e = subst (AreFiles full) (cc) h
  load_entries-HasFile full (d ∷ ds) entries es loaded l up h e =
      let (es', l', first, rest) =
        loads-eq (load_entry templates_dir path_max entries loaded d) _ es l e in
      load_entries-HasFile full ds es' es l' l (λ name content f. up name content (there f))
        (Adds-AreFiles full entries es' d l'
          (λ name content f. up name content (HasFile-append ds f)) h
          (subst (Adds entries d) first (load_entry-Adds entries loaded d)))
        rest
