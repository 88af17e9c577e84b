-- ===== src/Shared/Paging.antt =====
-- The pages of a list, as `Page.create` counts them and as `offset` and `limit` cut them.
use lms_backend.Base.{
  false, ℕ, zero, suc, ◌+◌, ◌-◌, ◌*◌, ◌/◌, ◌≤◌, ◌≡◌, refl, sym, ◌∙◌, List, [], ◌++◌, length, take,
  drop, take-add, take-all, arith, ◌==◌, nat_eq,
}
use native.Mathlib.Nat.{mod-add-div', mod-lt}
use lms_backend.Shared.Page.{PageParams, IsValidParams, offset, limit, create_page}

-- the rows that the services return for a page
abbrev pub page_of : {A : Type 0} → PageParams → List A → List A
page_of p rows = take (limit p) (drop (offset p) rows)

-- The pages from the first to the `n`th, one after another.
abbrev pub first_pages : {A : Type 0} → ℕ → PageParams → List A → List A
first_pages zero p rows = []
first_pages (suc n) p rows = first_pages n p rows ++ page_of (record p { page = suc n }) rows

ceil_enough : (total size : ℕ) → 1 ≤ size → total ≤ ((total + size - 1) / size) * size
ceil_enough total size h =
    omega (arith, mod-add-div' (total + size - 1) size, mod-lt (total + size - 1) {m = size} h)

module _ {A : Type 0} where
  first_pages-take :
      (n : ℕ) (p : PageParams) (rows : List A) → first_pages n p rows ≡ take (n * p.size) rows
  unfolding offset limit
  first_pages-take zero p rows = let e : 0 * p.size ≡ 0 = omega arith in rw e refl
  first_pages-take (suc n) p rows =
      let e : suc n * p.size ≡ n * p.size + p.size = omega arith in
      let o : suc n - 1 ≡ n = omega arith in
      rw (e, o, first_pages-take n p rows) (sym (take-add (n * p.size) p.size rows))

  -- Putting the pages of a response one after another, from the first to the last that it announces,
  -- gives the rows, each once and in their order.
  pub create_page-pages :
      (p : PageParams) (items rows : List A)
      → IsValidParams p
      → first_pages (create_page items (length rows) p).pages p rows ≡ rows
  unfolding create_page
  create_page-pages p items rows v =
      let n = (length rows + p.size - 1) / p.size in
      let e : (p.size == 0) ≡ false = ground arith in
      rw e (
        first_pages-take n p rows
        ∙ take-all (n * p.size) rows (ceil_enough (length rows) p.size v.size_pos))
