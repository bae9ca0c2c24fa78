-- ===== src/Router/Views/Recent.antt =====
-- The pages that come from the cache.
use miniweb.Prelude.{
  ℕ, ◌-◌, ◌≤◌, ◌≡◌, refl, sym, subst, false, not, ◌&&◌, Option, none, some, List, [], ◌∷◌, Bytes,
  str_eq, str_eq→eq, leb, All, arith, Bool-cases, if_both, inl, inr,
}
use miniweb.Router.Init.{ViewRoute, find_view_route}
use miniweb.Router.Views.{
  HotEntry, hot_view_cache, find_hot_view_cache_entry, set_hot_view, has_query, sends_cached,
  ViewCall, young_body, cached_page, reply_rendered, reply_view, reply_page, view_template_handler,
  ttl_sec,
}

-- A request of the history, the last one first, rendered this page for this path at this time.
pub data RenderedBy : List ViewCall → Bytes → Bytes → ℕ → Type 0 where
  here :
      {cs : List ViewCall} {body : Bytes} (c : ViewCall) (view : ViewRoute)
      → find_view_route c.method c.url ≡ some view
      → c.render view ≡ some body
      → RenderedBy (c ∷ cs) c.url body c.now
  there :
      {c : ViewCall} {cs : List ViewCall} {path body : Bytes} {time : ℕ}
      → RenderedBy cs path body time
      → RenderedBy (c ∷ cs) path body time

IsOurs : List ViewCall → HotEntry → Type 0
IsOurs cs e = (body : Bytes) → e.body ≡ some body → RenderedBy cs e.path body e.created_at

unfoldable pub run : List ViewCall → List HotEntry
run [] = hot_view_cache
run (c ∷ cs) = (view_template_handler c (run cs)).1

All-there :
    (c : ViewCall) (cs : List ViewCall) (es : List HotEntry)
    → All (IsOurs cs) es
    → All (IsOurs (c ∷ cs)) es
unfolding IsOurs
All-there c cs [] h = tt
All-there c cs (e ∷ es) h = (λ body p. there (h.0 body p), All-there c cs es h.1)

some_eq : {s t : Bytes} → some s ≡ some t → s ≡ t
some_eq e = cc

set_hot_view-IsOurs :
    (cs : List ViewCall) (path page : Bytes) (now : ℕ) (es : List HotEntry)
    → RenderedBy cs path page now
    → All (IsOurs cs) es
    → All (IsOurs cs) (set_hot_view path page now es)
unfolding set_hot_view IsOurs
set_hot_view-IsOurs cs path page now [] r h = tt
set_hot_view-IsOurs cs path page now (e ∷ es) r h = elim (Bool-cases (str_eq e.path path)) [
  | inl same ↦ rw same (
    (λ body p.
        subst (λ b. RenderedBy cs e.path b now) (some_eq p)
          (subst (λ q. RenderedBy cs q page now) (sym (str_eq→eq e.path path same)) r)),
    h.1,
  )
  | inr other ↦ rw other (h.0, set_hot_view-IsOurs cs path page now es r h.1)
]

reply_rendered-IsOurs :
    (c : ViewCall) (cs : List ViewCall) (es : List HotEntry) (view : ViewRoute) (o : Option Bytes)
    → find_view_route c.method c.url ≡ some view
    → c.render view ≡ o
    → All (IsOurs (c ∷ cs)) es
    → All (IsOurs (c ∷ cs)) (reply_rendered c es o).1
reply_rendered-IsOurs c cs es view none f r h = h
reply_rendered-IsOurs c cs es view (some output) f r h =
    if_both (All (IsOurs (c ∷ cs))) (not (has_query c.url) && c.cache_memory) _ es
      (set_hot_view-IsOurs (c ∷ cs) c.url output c.now es (here c view f r) h) h

reply_view-IsOurs :
    (c : ViewCall) (cs : List ViewCall) (es : List HotEntry) (o : Option ViewRoute)
    → find_view_route c.method c.url ≡ o
    → All (IsOurs (c ∷ cs)) es
    → All (IsOurs (c ∷ cs)) (reply_view c es o).1
reply_view-IsOurs c cs es none f h = h
reply_view-IsOurs c cs es (some view) f h =
    reply_rendered-IsOurs c cs es view (c.render view) f refl h

reply_page-IsOurs :
    (c : ViewCall) (cs : List ViewCall) (es : List HotEntry) (o : Option Bytes)
    → All (IsOurs (c ∷ cs)) es
    → All (IsOurs (c ∷ cs)) (reply_page c es o).1
reply_page-IsOurs c cs es none h = reply_view-IsOurs c cs es (find_view_route c.method c.url) refl h
reply_page-IsOurs c cs es (some body) h = h

start-IsOurs : All (IsOurs []) hot_view_cache
unfolding IsOurs hot_view_cache
start-IsOurs = ((λ b p. cc), ((λ b p. cc), ((λ b p. cc), ((λ b p. cc), ((λ b p. cc), tt)))))

run-IsOurs : (cs : List ViewCall) → All (IsOurs cs) (run cs)
unfolding run view_template_handler
run-IsOurs [] = start-IsOurs
run-IsOurs (c ∷ cs) =
    reply_page-IsOurs c cs (run cs) (cached_page c (run cs))
      (All-there c cs (run cs) (run-IsOurs cs))

found-IsOurs :
    (cs : List ViewCall) (path : Bytes) (es : List HotEntry) (e : HotEntry)
    → All (IsOurs cs) es
    → find_hot_view_cache_entry path es ≡ some e
    → IsOurs cs e × (e.path ≡ path)
unfolding find_hot_view_cache_entry
found-IsOurs cs path [] e h f = cc
found-IsOurs cs path (x ∷ es) e h f = elim (Bool-cases (str_eq x.path path)) [
  | inl same ↦
      let it : x ≡ e = ground (arith, same, f) in
      subst (λ y. IsOurs cs y × (y.path ≡ path)) it (h.0, str_eq→eq x.path path same)
  | inr other ↦ found-IsOurs cs path es e h.1 (ground (arith, other, f))
]

rendered_not_cached :
    (c : ViewCall) (es : List HotEntry) (o : Option Bytes) (page : Bytes)
    → (reply_rendered c es o).0 ≡ sends_cached page
    → ⊥
rendered_not_cached c es none page h = cc
rendered_not_cached c es (some output) page h = cc

view_not_cached :
    (c : ViewCall) (es : List HotEntry) (o : Option ViewRoute) (page : Bytes)
    → (reply_view c es o).0 ≡ sends_cached page
    → ⊥
view_not_cached c es none page h = cc
view_not_cached c es (some view) page h = rendered_not_cached c es (c.render view) page h

reply_page-cached :
    (c : ViewCall) (es : List HotEntry) (o : Option Bytes) (page : Bytes)
    → (reply_page c es o).0 ≡ sends_cached page
    → o ≡ some page
reply_page-cached c es none page h =
    absurd (view_not_cached c es (find_view_route c.method c.url) page h)
reply_page-cached c es (some body) page h = elim (Bool-cases c.copy_memory) [
  | inl copied ↦ ground (arith, copied, h)
  | inr failed ↦ cc (rw failed at h)
]

young_body-eq :
    (now : ℕ) (o : Option HotEntry) (page : Bytes)
    → young_body now o ≡ some page
    → (e : HotEntry) × (o ≡ some e) × (e.body ≡ some page) × (now - e.created_at ≤ ttl_sec)
young_body-eq now none page h = cc
young_body-eq now (some e) page h = elim (Bool-cases (leb (now - e.created_at) ttl_sec)) [
  | inl young ↦ (e, refl, rw young at h, ground (arith, young))
  | inr old ↦ cc (rw old at h)
]

cached_page-eq :
    (c : ViewCall) (es : List HotEntry) (page : Bytes)
    → cached_page c es ≡ some page
    → (has_query c.url ≡ false)
      × (young_body c.now (find_hot_view_cache_entry c.url es) ≡ some page)
unfolding cached_page
cached_page-eq c es page h = elim (Bool-cases (has_query c.url)) [
  | inl query ↦ cc (rw query at h)
  | inr plain ↦ (plain, rw plain at h)
]

-- After any history of requests, a page that a request gets from the cache was rendered for the same
-- URL, which has no query, by a request of the history, at most 10 seconds before.
pub cached_page_recent :
    (cs : List ViewCall) (c : ViewCall) (page : Bytes)
    → (view_template_handler c (run cs)).0 ≡ sends_cached page
    → (time : ℕ) × RenderedBy cs c.url page time
      × (c.now - time ≤ ttl_sec)
      × (has_query c.url ≡ false)
unfolding view_template_handler IsOurs
cached_page_recent cs c page h =
    let cached = reply_page-cached c (run cs) (cached_page c (run cs)) page h in
    let (plain, found) = cached_page-eq c (run cs) page cached in
    let (e, here_it_is, body, young) = young_body-eq c.now _ page found in
    let (ours, path) = found-IsOurs cs c.url (run cs) e (run-IsOurs cs) here_it_is in
    (
      e.created_at,
      subst (λ p. RenderedBy cs p page e.created_at) path (ours page body),
      young,
      plain,
    )
