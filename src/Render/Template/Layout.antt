-- ===== src/Render/Template/Layout.antt =====
-- What the placeholders of a layout are replaced by.
use miniweb.Prelude.{
  ℕ, ◌+◌, ◌≡◌, ◌≢◌, refl, sym, ap, ◌∙◌, Bool, true, Option, some, List, [], ◌∷◌, ◌++◌, Bytes, codes,
  Split, before, split_text, strip_prefix, strip_prefix-append, arith,
}
use mathlib.Core.List.{append_assoc, append-nil}
use miniweb.Render.Template.{
  PlaceholderPair, joined, or_empty, replace_single, replace_pairs, replace_placeholders,
  replace_all, compose_layout,
}

-- A text with no "{{" in it, that does not end with '{'.
abbrev pub IsPlainFrom : ℕ → Bytes → Type 0
IsPlainFrom c [] = c ≢ b'{'
IsPlainFrom c (d ∷ s) = (c ≡ b'{' → d ≢ b'{') × IsPlainFrom d s

abbrev pub IsPlain : Bytes → Type 0
IsPlain [] = Unit
IsPlain (c ∷ s) = IsPlainFrom c s

-- A hit in the text behind `s` is a hit in the whole.
put_before : Bytes → Split → Split
put_before [] hit = hit
put_before (c ∷ s) hit = before c (put_before s hit)

Skips : Bytes → Bytes → Type 0
Skips needle s =
    (rest : Bytes) → split_text needle (s ++ rest) ≡ put_before s (split_text needle rest)

put_before-append :
    (s t : Bytes) (hit : Split) → put_before (s ++ t) hit ≡ put_before s (put_before t hit)
unfolding put_before
put_before-append [] t hit = refl
put_before-append (c ∷ s) t hit = ap (before c) (put_before-append s t hit)

Skips-append : (needle s t : Bytes) → Skips needle s → Skips needle t → Skips needle (s ++ t)
unfolding Skips
Skips-append needle s t h k rest =
    ap (split_text needle) (append_assoc s t rest)
    ∙ (h (t ++ rest)
        ∙ (ap (put_before s) (k rest) ∙ sym (put_before-append s t (split_text needle rest))))

-- A placeholder's name behind its "{{".
abbrev marked : Bytes → Bytes
marked name = b'{' ∷ b'{' ∷ name

IsPlainFrom-Skips :
    (name : Bytes) (c : ℕ) (s : Bytes) → IsPlainFrom c s → Skips (marked name) (c ∷ s)
unfolding Skips put_before split_text strip_prefix
IsPlainFrom-Skips name c [] h rest = ground arith
IsPlainFrom-Skips name c (d ∷ s) h rest = ground (arith, h.0, IsPlainFrom-Skips name d s h.1 rest)

IsPlain-Skips : (name s : Bytes) → IsPlain s → Skips (marked name) s
unfolding Skips put_before
IsPlain-Skips name [] h rest = refl
IsPlain-Skips name (c ∷ s) h rest = IsPlainFrom-Skips name c s h rest

put_before-some :
    (s front back : Bytes) → put_before s (some (front, back)) ≡ some (s ++ front, back)
unfolding put_before
put_before-some [] front back = refl
put_before-some (c ∷ s) front back = ap (before c) (put_before-some s front back)

split_text-here :
    (name rest : Bytes) → split_text (marked name) (marked name ++ rest) ≡ some ([], rest)
unfolding split_text
split_text-here name rest = rw (strip_prefix-append (marked name) rest, split_text) refl

-- The first placeholder behind a text that is skipped.
joined-at :
    (name front back value : Bytes)
    → Skips (marked name) front
    → joined
        (front ++ (marked name ++ back))
        value
        (split_text (marked name) (front ++ (marked name ++ back)))
      ≡ front ++ (value ++ back)
unfolding Skips
joined-at name front back value h =
    let hit =
      h (marked name ++ back)
      ∙ (ap (put_before front) (split_text-here name back) ∙ put_before-some front [] back) in
    ap (joined (front ++ (marked name ++ back)) value) hit
    ∙ ap (λ f. f ++ (value ++ back)) (append-nil front)

replace_single-at :
    (name str front back value : Bytes)
    → Skips (marked name) front
    → str ≡ front ++ (marked name ++ back)
    → replace_single true str (marked name) value ≡ some (front ++ (value ++ back))
unfolding replace_single
replace_single-at name str front back value h e = rw e (ap some (joined-at name front back value h))

-- One pair after the other.
fill_step :
    (memory : ℕ → Bool) (i : ℕ) (name value front back str : Bytes) (pairs : List PlaceholderPair)
    → ((k : ℕ) → memory k ≡ true)
    → Skips (marked name) front
    → str ≡ front ++ (marked name ++ back)
    → replace_pairs memory i (record { needle = marked name; value = some value } ∷ pairs) str
      ≡ replace_pairs memory (i + 1) pairs (front ++ (value ++ back))
unfolding replace_pairs
fill_step memory i name value front back str pairs room skips e =
    rw (room (i + 1)) (rw (replace_single-at name str front back value skips e) refl)

replace_pairs-nil :
    (memory : ℕ → Bool) (i : ℕ) (str : Bytes) → replace_pairs memory i [] str ≡ some str
unfolding replace_pairs
replace_pairs-nil memory i str = refl

module _ (t p h j a b c d e title page head js : Bytes) where
  filled : Bytes
  filled = a ++ (title ++ (b ++ (head ++ (c ++ (page ++ (d ++ (js ++ e)))))))

  pairs_of : List PlaceholderPair
  pairs_of =
      record { needle = marked t; value = some title }
      ∷ record { needle = marked p; value = some page }
      ∷ record { needle = marked h; value = some head }
      ∷ record { needle = marked j; value = some js }
      ∷ []

  layout_of : Bytes
  layout_of = a ++ (marked t ++ (b ++ (marked h ++ (c ++ (marked p ++ (d ++ (marked j ++ e)))))))

  -- The four replacements, of which the second skips the third placeholder.
  fill_all :
      (memory : ℕ → Bool)
      → ((i : ℕ) → memory i ≡ true)
      → Skips (marked p) (marked h)
      → IsPlain a
      → IsPlain b
      → IsPlain c
      → IsPlain d
      → IsPlain title
      → IsPlain page
      → IsPlain head
      → replace_pairs memory 0 pairs_of layout_of ≡ some filled
  unfolding pairs_of layout_of filled
  fill_all memory room skips ha hb hc hd ht hp hh =
      let rest : Bytes = d ++ (marked j ++ e) in
      let over = λ (n : Bytes). IsPlain-Skips n in
      let front2 : Bytes = a ++ (title ++ (b ++ (marked h ++ c))) in
      let front3 : Bytes = a ++ (title ++ b) in
      let front4 : Bytes = a ++ (title ++ (b ++ (head ++ (c ++ (page ++ d))))) in
      let skips2 = Skips-append (marked p) a (title ++ (b ++ (marked h ++ c))) (over p a ha) (
        Skips-append (marked p) title (b ++ (marked h ++ c)) (over p title ht) (
          Skips-append (marked p) b (marked h ++ c) (over p b hb)
            (Skips-append (marked p) (marked h) c skips (over p c hc)))) in
      let skips3 =
        Skips-append (marked h) a (title ++ b) (over h a ha)
          (Skips-append (marked h) title b (over h title ht) (over h b hb)) in
      let skips4 = Skips-append (marked j) a _ (over j a ha) (
        Skips-append (marked j) title _ (over j title ht) (
          Skips-append (marked j) b _ (over j b hb) (
            Skips-append (marked j) head _ (over j head hh) (
              Skips-append (marked j) c _ (over j c hc)
                (Skips-append (marked j) page d (over j page hp) (over j d hd)))))) in
      let whole : front4 ++ (js ++ e) ≡ filled = simp append_assoc in
      let str2 : Bytes = a ++ (title ++ (b ++ (marked h ++ (c ++ (marked p ++ rest))))) in
      fill_step memory 0 t title a (b ++ (marked h ++ (c ++ (marked p ++ rest)))) layout_of _ room
        (over t a ha) refl
      ∙ (fill_step memory 1 p page front2 rest str2 _ room skips2 (simp append_assoc)
          ∙ (fill_step memory 2 h head front3 (c ++ (page ++ rest)) (front2 ++ (page ++ rest)) _
                room skips3 (simp append_assoc)
              ∙ (fill_step memory 3 j js front4 e (front3 ++ (head ++ (c ++ (page ++ rest)))) []
                    room skips4 (simp append_assoc)
                  ∙ (replace_pairs-nil memory 4 (front4 ++ (js ++ e)) ∙ ap some whole))))

head_skipped : Skips (codes "{{page_content}}") (codes "{{extra_head}}")
unfolding Skips put_before split_text strip_prefix
head_skipped rest = refl

-- If the allocations succeed, in a layout with the placeholders of templates/base.html in its order each
-- of them is replaced by its text, and nothing else changes, as long as neither the layout before the
-- last placeholder nor the title, the page and the head fragment hold a further "{{" or end with '{'.
pub compose_layout_lem :
    (a b c d e title page js : Bytes) (head : Option Bytes) (memory : ℕ → Bool)
    → ((i : ℕ) → memory i ≡ true)
    → IsPlain a
    → IsPlain b
    → IsPlain c
    → IsPlain d
    → IsPlain title
    → IsPlain page
    → IsPlain (or_empty head)
    → compose_layout memory title
        (a
          ++ (codes "{{title}}"
              ++ (b
                  ++ (codes "{{extra_head}}"
                      ++ (c ++ (codes "{{page_content}}" ++ (d ++ (codes "{{extra_js}}" ++ e))))))))
        page
        head
        (some js)
      ≡ some (a ++ (title ++ (b ++ (or_empty head ++ (c ++ (page ++ (d ++ (js ++ e))))))))
unfolding compose_layout replace_all replace_placeholders pairs_of layout_of filled
compose_layout_lem a b c d e title page js head memory room ha hb hc hd ht hp hh = rw (room 0) (
    fill_all (codes "title}}") (codes "page_content}}") (codes "extra_head}}") (codes "extra_js}}")
      a b c d e title page (or_empty head) js memory room head_skipped ha hb hc hd ht hp hh)
