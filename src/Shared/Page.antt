-- ===== src/Shared/Page.antt =====
-- `PageParams` and `Page` of app/shared/schemas.py. The schema's bounds, `1 <= page` and
-- `1 <= size <= 100`, are checked by the web framework and stand as a predicate.
use lms_backend.Base.{ℕ, ◌+◌, ◌-◌, ◌*◌, ◌/◌, ◌≤◌, String, Option, List, ◌==◌, nat_eq, if◌then◌else◌}

pub record PageParams : Type 0 where
  pub page : ℕ
  pub size : ℕ
  pub search : Option String
  pub sort : Option String

pub record IsValidParams (p : PageParams) : Type 0 where
  pub page_pos : 1 ≤ p.page
  pub size_pos : 1 ≤ p.size
  pub size_le : p.size ≤ 100

unfoldable pub offset : PageParams → ℕ
offset p = (p.page - 1) * p.size

unfoldable pub limit : PageParams → ℕ
limit p = p.size

pub record Page (A : Type 0) : Type 0 where
  pub items : List A
  pub total : ℕ
  pub page : ℕ
  pub size : ℕ
  pub pages : ℕ

-- `Page.create`
unfoldable pub create_page : {A : Type 0} → List A → ℕ → PageParams → Page A
create_page items total p =
    let pages = if p.size == 0 then 0 else (total + p.size - 1) / p.size in
    record { items = items; total = total; page = p.page; size = p.size; pages = pages }
