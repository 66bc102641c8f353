-- ===== src/Canonical/Decode.antt =====
-- A reader of the encoding, written from the format of docs/whitepaper.md §5.1 and not from the
-- encoder. It reads a context and its fields, and leaves what follows them.
use grantd.Base.{
  ℕ, zero, suc, Option, none, some, List, [], ◌∷◌, Bytes, ◌==◌, if◌then◌else◌, true, false,
}
use grantd.Std.BigEndian.{read_be32, read_be64}
use grantd.Canonical.{
  Value, string, word, blob, flag, Item, tag_string, tag_u64, tag_bytes, tag_bool,
}

infixl 5 ◌>>=◌
abbrev pub ◌>>=◌ : {A B : Type 0} → Option A → (A → Option B) → Option B
none >>= f = none
some a >>= f = f a

unfoldable pub take_exactly : ℕ → Bytes → Option (Bytes × Bytes)
take_exactly zero bs = some ([], bs)
take_exactly (suc n) [] = none
take_exactly (suc n) (b ∷ bs) = do (taken, rest) ← take_exactly n bs; some (b ∷ taken, rest)

unfoldable pub read_lp : Bytes → Option (Bytes × Bytes)
read_lp bs = do (n, rest) ← read_be32 bs; take_exactly n rest

unfoldable pub read_flag : Bytes → Option Value
read_flag (b ∷ []) = if b == 0 then some (flag false) else if b == 1 then some (flag true) else none
read_flag _ = none

unfoldable pub read_word : Bytes → Option Value
read_word bs = do n ← read_be64 bs; some (word n)

unfoldable pub read_value : ℕ → Bytes → Option Value
read_value tag raw =
    if tag == tag_string
    then some (string raw)
    else if tag == tag_u64
    then read_word raw
    else if tag == tag_bytes
    then some (blob raw)
    else if tag == tag_bool
    then read_flag raw
    else none

unfoldable pub read_tag : Bytes → Option (ℕ × Bytes)
read_tag [] = none
read_tag (t ∷ rest) = some (t, rest)

unfoldable pub read_item : Bytes → Option (Item × Bytes)
read_item bs = do
  (name, after_name) ← read_lp bs
  (tag, after_tag) ← read_tag after_name
  (raw, rest) ← read_lp after_tag
  v ← read_value tag raw
  some (record { name = name; content = v }, rest)

unfoldable pub read_items : ℕ → Bytes → Option (List Item × Bytes)
read_items zero bs = some ([], bs)
read_items (suc n) bs = do
  (i, rest) ← read_item bs
  (is, end) ← read_items n rest
  some (i ∷ is, end)

unfoldable pub decode : Bytes → Option (Bytes × List Item × Bytes)
decode bs = do
  (context, after_context) ← read_lp bs
  (n, after_count) ← read_be32 after_context
  (is, rest) ← read_items n after_count
  some (context, is, rest)
