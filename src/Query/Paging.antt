-- ===== src/Query/Paging.antt =====
-- The loop with which the listing queries of src/brldb cut their result into pages: of the items from
-- `offset` on, `limit` at most (all where it is -1), each 50 are attached as a partial result, and the rest
-- is the query's own. `Paging` holds the loop's variables.
use beryldb.Prelude.{
  ℕ, zero, suc, ◌+◌, ◌-◌, ◌*◌, ◌%◌, Bool, true, false, ◌&&◌, not, List, [], ◌∷◌, ◌++◌, Str, ltb,
  leb, ◌==◌, if◌then◌else◌,
}
use beryldb.Machine.{incr32, to_int, u32_mod, ℤ}
use beryldb.Machine.ℤ.{pos, negsuc}
use beryldb.Query.Types.{Page}
pub mod Laws
pub mod Sizes

-- ITER_LIMIT of make/models/config.h.
abbrev pub iter_limit : ℕ
iter_limit = 50

pub record Paging : Type 0 where
  pub total : ℕ
  pub aux : ℕ
  pub tracker : ℕ
  pub result : List Str
  pub pages : List Page

abbrev pub is_mone : ℤ → Bool
is_mone (pos n) = false
is_mone (negsuc n) = n == 0

abbrev pub int_leb : ℤ → ℤ → Bool
int_leb (pos a) (pos b) = leb a b
int_leb (pos a) (negsuc b) = false
int_leb (negsuc a) (pos b) = true
int_leb (negsuc a) (negsuc b) = leb b a

abbrev pub int_ltb : ℤ → ℤ → Bool
int_ltb a b = not (int_leb b a)

-- (unsigned int)limit.
abbrev pub to_unsigned : ℤ → ℕ
to_unsigned (pos n) = n % u32_mod
to_unsigned (negsuc n) = (u32_mod * (n + 1) - (n + 1)) % u32_mod

unfoldable pub flush_page : Paging → Paging
flush_page p =
    if p.aux % iter_limit == 0
    then record p {
      tracker = incr32 p.tracker;
      result = [];
      pages =
          p.pages
          ++ record { page_subresult = incr32 p.tracker; page_data = p.result; page_mmap = [] }
            ∷ [];
    }
    else p

abbrev pub taken : Str → Paging → Paging
taken item p = record p { aux = incr32 p.aux; result = p.result ++ item ∷ [] }

unfoldable pub page_add : Str → Paging → Paging
unfolding flush_page
page_add item p = flush_page (taken item p)

unfoldable pub count_item : Paging → Paging
count_item p = record p { total = incr32 p.total }

-- One round of the loop, and whether it breaks.
unfoldable pub page_step : ℤ → ℤ → Str → Paging → Paging × Bool
unfolding page_add count_item
page_step offset limit item p =
    if not (is_mone limit) && int_leb offset (to_int p.total)
    then (if int_ltb (to_int p.aux) limit
        then (if (page_add item p).aux == to_unsigned limit
            then (page_add item p, true)
            else (count_item (page_add item p), false))
        else (count_item p, false))
    else if is_mone limit
    then (count_item (page_add item p), false)
    else (count_item p, false)

unfoldable pub page_loop : ℤ → ℤ → List Str → Paging → Paging
unfolding page_step
page_loop offset limit [] p = p
page_loop offset limit (item ∷ l) p =
    let next = page_step offset limit item p in
    let rest = page_loop offset limit l next.0 in if next.1 then next.0 else rest

abbrev pub start : Paging
start = record { total = 0; aux = 0; tracker = 0; result = []; pages = [] }
