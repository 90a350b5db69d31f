-- ===== src/Lzss/Stream.antt =====
-- The format that `decompress_lzss` reads: what a stream of literals and matches stands for, and the
-- bytes that it is written as.
use xnu_uboot_arm.Base.{
  ℕ, zero, suc, ◌+◌, ◌-◌, ◌*◌, ◌/◌, ◌%◌, ◌<◌, ◌≤◌, ◌≡◌, List, [], ◌∷◌, ◌++◌, length, get_or,
  replicate,
}
use xnu_uboot_arm.Lzss.{ring_size, max_match, threshold}

-- A byte, or `size` bytes from `distance` bytes back, which may reach into themselves.
pub data Item : Type 0 where
  literal : (c : ℕ) → Item
  match : (distance size : ℕ) → Item

-- A text is kept with its last byte first; before its start there are the blanks of the ring.
abbrev pub blanks : List ℕ
blanks = replicate (ring_size - max_match) b' '

unfoldable pub repeat : (size distance : ℕ) → List ℕ → List ℕ
repeat zero distance text = text
repeat (suc n) distance text = repeat n distance (get_or text (distance - 1) 0 ∷ text)

unfoldable pub expand_item : Item → List ℕ → List ℕ
expand_item (literal c) text = c ∷ text
expand_item (match distance size) text = repeat size distance text

unfoldable pub expand_group : List Item → List ℕ → List ℕ
expand_group [] text = text
expand_group (x ∷ xs) text = expand_group xs (expand_item x text)

unfoldable pub expand : List (List Item) → List ℕ → List ℕ
expand [] text = text
expand (g ∷ gs) text = expand gs (expand_group g text)

-- The last `n` bytes of a text, in their order.
unfoldable pub latest : ℕ → List ℕ → List ℕ
latest zero text = []
latest (suc n) [] = []
latest (suc n) (c ∷ text) = latest n text ++ c ∷ []

-- How many bytes of text an item, a group and a stream give.
unfoldable pub item_size : Item → ℕ
item_size (literal c) = 1
item_size (match distance size) = size

unfoldable pub group_size : List Item → ℕ
group_size [] = 0
group_size (x ∷ xs) = item_size x + group_size xs

unfoldable pub stream_size : List (List Item) → ℕ
stream_size [] = 0
stream_size (g ∷ gs) = group_size g + stream_size gs

-- A match is written as its place in the ring, in twelve bits, and its size, in four.
unfoldable pub write_item : (r : ℕ) → Item → List ℕ
write_item r (literal c) = c ∷ []
write_item r (match distance size) =
    let i = (r + ring_size - distance) % ring_size in
    i % 256 ∷ (i / 256 * 16 + (size - threshold - 1)) ∷ []

unfoldable pub write_items : (r : ℕ) → List Item → List ℕ
write_items r [] = []
write_items r (x ∷ xs) = write_item r x ++ write_items ((r + item_size x) % ring_size) xs

-- A bit for each item, the first in bit 0: is it a literal?
unfoldable pub flag_bits : List Item → ℕ
flag_bits [] = 0
flag_bits (literal c ∷ xs) = 1 + 2 * flag_bits xs
flag_bits (match distance size ∷ xs) = 2 * flag_bits xs

-- A byte of flags before each group.
unfoldable pub write_stream : (r : ℕ) → List (List Item) → List ℕ
write_stream r [] = []
write_stream r (g ∷ gs) =
    flag_bits g ∷ (write_items r g ++ write_stream ((r + group_size g) % ring_size) gs)

-- Literals are bytes; a match is 3 to 18 bytes long, and starts in the ring, not before the text.
unfoldable pub IsItem : Item → List ℕ → Type 0
IsItem (literal c) text = c < 256
IsItem (match distance size) text =
    (1 ≤ distance)
    × (distance ≤ ring_size)
    × (distance ≤ length text)
    × (threshold < size)
    × (size ≤ max_match)

unfoldable pub IsGroup : List Item → List ℕ → Type 0
IsGroup [] text = Unit {0}
IsGroup (x ∷ xs) text = IsItem x text × IsGroup xs (expand_item x text)

-- Groups have eight items, and the last one has from one to eight.
unfoldable pub IsStream : List (List Item) → List ℕ → Type 0
IsStream [] text = Unit {0}
IsStream (g ∷ []) text = (1 ≤ length g) × (length g ≤ 8) × IsGroup g text
IsStream (g ∷ g' ∷ gs) text =
    (length g ≡ 8) × IsGroup g text × IsStream (g' ∷ gs) (expand_group g text)
