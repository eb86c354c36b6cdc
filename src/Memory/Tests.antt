-- ===== src/Memory/Tests.antt =====
-- The range operations of memory.c on concrete page tables.
use sharkix.Common.{not, ◌==◌, ◌≡◌, refl, true, false, none}
use sharkix.Memory.{Outcome, page_writable, range_allowed}
use sharkix.Memory.Pages.{address_space_map_range, any_mapped, all_mapped, map_pages}
use sharkix.Memory.Flat.{FlatSpace, flat}

abbrev bare : FlatSpace
bare = record { vmoset = 1; kernel = false; pages = λ n. none; held = λ p. true }

-- Two pages and a byte are three pages.
abbrev three : FlatSpace
three = (address_space_map_range flat true 8192 0x100000 8193 page_writable bare).0

maps_three :
    (address_space_map_range flat true 8192 0x100000 8193 page_writable bare).1 ≡ Outcome.ok
unfolding range_allowed address_space_map_range any_mapped map_pages
maps_three = refl

holds_three : all_mapped flat 3 8192 three ≡ true
unfolding range_allowed address_space_map_range any_mapped map_pages all_mapped
holds_three = refl

-- The third page is free, and nobody holds it.
abbrev third_free : FlatSpace
third_free = record bare { held = λ p. not (p == 0x102000) }

panics :
    (address_space_map_range flat true 8192 0x100000 8193 page_writable third_free).1
    ≡ Outcome.panicked
unfolding range_allowed address_space_map_range any_mapped map_pages
panics = refl
