-- ===== src/Gui/PreviewPages.antt =====
-- The pages of DrawPageCache in src/CustomerPrintClientGui/PrintPage/CtrlPrintPreviewCanvas.cpp: which
-- of them show, and whose bitmaps a scroll keeps. A bitmap is a number; coordinates are not negative,
-- and GetBottom() is y + height - 1.
use customer_print_client.Prelude.{
  ℕ, zero, suc, ◌+◌, ◌≤◌, ◌<◌, ◌≡◌, refl, sym, ap, ◌∙◌, Bool, true, false, ◌||◌, List, [], ◌∷◌, inl,
  inr, Option, none, some, arith, ltb, leb, if◌then◌else◌, Bool-cases, All,
}
use mathlib.Core.Path.{subst}
use mathlib.Core.Bool.{true≢false}
use mathlib.Core.Option.{some-injective}

abbrev pub shadow_offset : ℕ
shadow_offset = 4

-- The vertical extent of a rectangle.
pub record Extent : Type 0 where
  pub y : ℕ
  pub height : ℕ

pub record PageInfo : Type 0 where
  pub rect : Extent
  pub bitmap_is_set : Bool
  pub bitmap : Option ℕ

unfoldable pub reset_bitmap : PageInfo → PageInfo
reset_bitmap p = record p { bitmap_is_set = false; bitmap = none }

-- The tests of the two loops of CalcVisiblePageNums.
abbrev pub ends_below : Extent → PageInfo → Bool
ends_below view p = leb view.y (p.rect.y + p.rect.height + shadow_offset)

abbrev pub starts_above : Extent → PageInfo → Bool
starts_above view p = leb (p.rect.y + 3) (view.y + view.height)

-- The second loop: from page `i`, where the last visible one so far is `last`.
unfoldable pub last_visible : Extent → ℕ → ℕ → List PageInfo → ℕ
last_visible view last i [] = last
last_visible view last i (p ∷ ps) =
    let rest = last_visible view i (suc i) ps in if starts_above view p then rest else last

-- CalcVisiblePageNums from page `i`: the first and the last visible page, or InvalidPageNum.
unfoldable pub calc_visible_page_nums : Extent → ℕ → List PageInfo → Option (ℕ × ℕ)
calc_visible_page_nums view i [] = none
calc_visible_page_nums view i (p ∷ ps) =
    let rest = calc_visible_page_nums view (suc i) ps in
    if ends_below view p then some (i, last_visible view i (suc i) ps) else rest

-- The two loops of ClearInvisiblePagesCache, from page `i`.
unfoldable pub reset_outside : ℕ → ℕ → ℕ → List PageInfo → List PageInfo
reset_outside first last i [] = []
reset_outside first last i (p ∷ ps) =
    (if ltb i first || ltb last i then reset_bitmap p else p) ∷ reset_outside first last (suc i) ps

unfoldable pub clear_invisible_pages_cache : Option (ℕ × ℕ) → List PageInfo → List PageInfo
clear_invisible_pages_cache none pages = pages
clear_invisible_pages_cache (some (first, last)) pages = reset_outside first last 0 pages

unfoldable pub on_scroll : Extent → List PageInfo → List PageInfo
on_scroll view pages = clear_invisible_pages_cache (calc_visible_page_nums view 0 pages) pages

abbrev pub page_at : ℕ → List PageInfo → Option PageInfo
page_at i [] = none
page_at zero (p ∷ ps) = some p
page_at (suc i) (p ∷ ps) = page_at i ps

-- No page starts above an earlier one.
abbrev pub Column : List PageInfo → Type 0
Column [] = Unit
Column (p ∷ ps) = All (λ q. p.rect.y ≤ q.rect.y) ps × Column ps

All-at :
    (P : PageInfo → Type 0) (i : ℕ) (ps : List PageInfo) (p : PageInfo)
    → All P ps
    → page_at i ps ≡ some p
    → P p
All-at P i [] p h e = ground arith
All-at P zero (q ∷ ps) p (h, hs) e = subst P (some-injective q p e) h
All-at P (suc i) (q ∷ ps) p (h, hs) e = All-at P i ps p hs e

last_visible_ge :
    (view : Extent) (last i : ℕ) (ps : List PageInfo)
    → last ≤ i
    → last ≤ last_visible view last i ps
unfolding last_visible
last_visible_ge view last i [] h = omega arith
last_visible_ge view last i (p ∷ ps) h = elim (Bool-cases (starts_above view p)) [
  | inl e ↦ rw e (omega (arith, h, last_visible_ge view i (suc i) ps (omega arith)))
  | inr e ↦ rw e (omega arith)
]

above_mono :
    (view : Extent) (q p : PageInfo)
    → q.rect.y ≤ p.rect.y
    → starts_above view p ≡ true
    → starts_above view q ≡ true
above_mono view q p h e = ground arith

reaches :
    (view : Extent) (last k i : ℕ) (ps : List PageInfo) (p : PageInfo)
    → last ≤ k
    → Column ps
    → page_at i ps ≡ some p
    → starts_above view p ≡ true
    → k + i ≤ last_visible view last k ps
unfolding last_visible
reaches view last k i [] p le c e above = ground arith
reaches view last k zero (q ∷ ps) p le c e above =
    rw (subst (λ x. starts_above view x ≡ true) (sym (some-injective q p e)) above)
      (omega (arith, last_visible_ge view k (suc k) ps (omega arith)))
reaches view last k (suc i) (q ∷ ps) p le (c, cs) e above =
    rw (above_mono view q p (All-at (λ x. q.rect.y ≤ x.rect.y) i ps p c e) above)
      (omega (arith, reaches view k (suc k) i ps p (omega arith) cs e above))

stops_before :
    (view : Extent) (last k j : ℕ) (ps : List PageInfo) (p : PageInfo)
    → last < k
    → page_at j ps ≡ some p
    → starts_above view p ≡ false
    → last_visible view last k ps < k + j
unfolding last_visible
stops_before view last k j [] p lt e below = ground arith
stops_before view last k zero (q ∷ ps) p lt e below =
    rw (subst (λ x. starts_above view x ≡ false) (sym (some-injective q p e)) below) (omega arith)
stops_before view last k (suc j) (q ∷ ps) p lt e below = elim (Bool-cases (starts_above view q)) [
  | inl b ↦ rw b (omega (arith, stops_before view k (suc k) j ps p (omega arith) e below))
  | inr b ↦ rw b (omega (arith, lt))
]

-- Every page below the view comes after page `l`, where the pages start at `k`.
Stops : Extent → ℕ → ℕ → List PageInfo → Type 0
Stops view k l ps =
    (j : ℕ) (r : PageInfo) → page_at j ps ≡ some r → starts_above view r ≡ false → l < k + j

Stops-cons :
    (view : Extent) (k l : ℕ) (q : PageInfo) (ps : List PageInfo)
    → starts_above view q ≡ true
    → Stops view (suc k) l ps
    → Stops view k l (q ∷ ps)
unfolding Stops
Stops-cons view k l q ps above h zero r e below = absurd (
    true≢false
      (sym above ∙ subst (λ x. starts_above view x ≡ false) (sym (some-injective q r e)) below))
Stops-cons view k l q ps above h (suc j) r e below = omega (arith, h j r e below)

last_visible-Stops :
    (view : Extent) (k : ℕ) (ps : List PageInfo)
    → Stops view (suc k) (last_visible view k (suc k) ps) ps
unfolding Stops
last_visible-Stops view k ps j r e below = stops_before view k (suc k) j ps r (omega arith) e below

-- A page that overlaps the view with its frame and its shadow lies between the two numbers, and each
-- page below the view lies after them.
visible_between :
    (view : Extent) (k i : ℕ) (ps : List PageInfo) (p : PageInfo)
    → Column ps
    → page_at i ps ≡ some p
    → ends_below view p ≡ true
    → starts_above view p ≡ true
    → (f : ℕ) × (l : ℕ) × (calc_visible_page_nums view k ps ≡ some (f, l))
      × (f ≤ k + i)
      × (k + i ≤ l)
      × Stops view k l ps
unfolding calc_visible_page_nums
visible_between view k i [] p c e below above = ground arith
visible_between view k zero (q ∷ ps) p c e below above =
    let same : p ≡ q = sym (some-injective q p e) in
    (
      k,
      last_visible view k (suc k) ps,
      rw (subst (λ x. ends_below view x ≡ true) same below) refl,
      omega arith,
      omega (arith, last_visible_ge view k (suc k) ps (omega arith)),
      Stops-cons view k (last_visible view k (suc k) ps) q ps
          (subst (λ x. starts_above view x ≡ true) same above) (last_visible-Stops view k ps),
    )
visible_between view k (suc i) (q ∷ ps) p (c, cs) e below above =
    let q_above : starts_above view q ≡ true =
      above_mono view q p (All-at (λ x. q.rect.y ≤ x.rect.y) i ps p c e) above in
    elim (Bool-cases (ends_below view q)) [
      | inl b ↦ (
        k,
        last_visible view k (suc k) ps,
        rw b refl,
        omega arith,
        omega (arith, reaches view k (suc k) i ps p (omega arith) cs e above),
        Stops-cons view k (last_visible view k (suc k) ps) q ps q_above
            (last_visible-Stops view k ps),
      )
      | inr b ↦
          let (f, l, found, lo, hi, stops) = visible_between view (suc k) i ps p cs e below above in
          (
            f,
            l,
            rw b found,
            omega (arith, lo),
            omega (arith, hi),
            Stops-cons view k l q ps q_above stops,
          )
    ]

-- What reset_outside does to the page at an index.
reset_at : ℕ → ℕ → ℕ → PageInfo → PageInfo
reset_at first last i p = if ltb i first || ltb last i then reset_bitmap p else p

reset_at_inside :
    (first last i : ℕ) (p : PageInfo) → first ≤ i → i ≤ last → reset_at first last i p ≡ p
unfolding reset_at
reset_at_inside first last i p lo hi = ground arith

page_at-reset_outside :
    (first last k i : ℕ) (ps : List PageInfo) (p : PageInfo)
    → page_at i ps ≡ some p
    → page_at i (reset_outside first last k ps) ≡ some (reset_at first last (k + i) p)
unfolding reset_outside reset_at
page_at-reset_outside first last k i [] p e = ground arith
page_at-reset_outside first last k zero (q ∷ ps) p e =
    ap (λ x. some (reset_at first last x q)) (omega arith)
    ∙ ap (λ x. some (reset_at first last (k + 0) x)) (some-injective q p e)
page_at-reset_outside first last k (suc i) (q ∷ ps) p e =
    page_at-reset_outside first last (suc k) i ps p e
    ∙ ap (λ x. some (reset_at first last x p)) (omega arith)

reset_at_after :
    (first last i : ℕ) (p : PageInfo) → last < i → reset_at first last i p ≡ reset_bitmap p
unfolding reset_at reset_bitmap
reset_at_after first last i p lt = ground arith

-- A row of the drawn page is in the view: the rows go from that of the frame above the page, here from
-- the third row of the page itself, to the last one of the shadow below it.
abbrev pub RowShows : Extent → PageInfo → ℕ → Type 0
RowShows view p row =
    (p.rect.y + 2 ≤ row)
    × (row ≤ p.rect.y + p.rect.height + 4)
    × (view.y ≤ row)
    × (row < view.y + view.height)

below_if_shows :
    (view : Extent) (p : PageInfo) (row : ℕ) → RowShows view p row → ends_below view p ≡ true
below_if_shows view p row (a, b, c, d) = ground arith

above_if_shows :
    (view : Extent) (p : PageInfo) (row : ℕ) → RowShows view p row → starts_above view p ≡ true
above_if_shows view p row (a, b, c, d) = ground arith

not_above :
    (view : Extent) (p : PageInfo)
    → view.y + view.height ≤ p.rect.y + 2
    → starts_above view p ≡ false
not_above view p h = ground arith

-- In a column of pages, where a row of a page shows in the view, from the third row of the page to the
-- last row of its shadow, a scroll keeps the bitmap of that page; and it drops the bitmap of each page
-- of which at most the first two rows lie above the lower end of the view.
pub scroll_keeps_visible :
    (view : Extent) (pages : List PageInfo) (i j row : ℕ) (p r : PageInfo)
    → Column pages
    → page_at i pages ≡ some p
    → RowShows view p row
    → page_at j pages ≡ some r
    → view.y + view.height ≤ r.rect.y + 2
    → (page_at i (on_scroll view pages) ≡ some p)
      × (page_at j (on_scroll view pages) ≡ some (reset_bitmap r))
unfolding on_scroll clear_invisible_pages_cache Stops
scroll_keeps_visible view pages i j row p r c at_i shows at_j under =
    let (f, l, found, lo, hi, stops) =
      visible_between view 0 i pages p c at_i (below_if_shows view p row shows)
        (above_if_shows view p row shows) in
    (
      rw found (
          page_at-reset_outside f l 0 i pages p at_i
          ∙ ap some (reset_at_inside f l (0 + i) p lo hi)),
      rw found (
          page_at-reset_outside f l 0 j pages r at_j
          ∙ ap some (reset_at_after f l (0 + j) r (stops j r at_j (not_above view r under)))),
    )
