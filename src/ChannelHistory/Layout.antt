-- ===== src/ChannelHistory/Layout.antt =====
-- Where the fields of a record of channel_history.rs stand among its bytes.
use xivlantern_dalamud.Prelude.{
  ℕ, ℤ, ◌+◌, ◌-◌, ◌≡◌, refl, ap, ◌∙◌, ◌++◌, arith, length, take, drop, length-append, append_assoc,
  nat_eq, bytes_eq,
}
use xivlantern_dalamud.Bytes.{Bytes, slice, be_bytes, i64_bits}
use xivlantern_dalamud.Bytes.Slices.{take-append, drop-drop, drop-append_whole, length-be_bytes}
use xivlantern_dalamud.ChannelHistory.{record_magic, header, record_body}

module _ (author room id text sig : Bytes) (sent_at : ℤ) (author_len : length author ≡ 32)
    (room_len : length room ≡ 32) (id_len : length id ≡ 16) where
  abbrev time : Bytes
  time = be_bytes 8 (i64_bits sent_at)

  abbrev text_len : Bytes
  text_len = be_bytes 2 (length text)

  abbrev whole : Bytes
  whole = record_body author room id sent_at text ++ sig

  -- The fields one after the other.
  whole_lem :
      whole ≡ record_magic ++ (author ++ (room ++ (id ++ (time ++ (text_len ++ (text ++ sig))))))
  unfolding record_body
  whole_lem = simp append_assoc

  -- One more field off the front.
  past :
      (i j : ℕ) (field rest : Bytes)
      → drop i whole ≡ field ++ rest
      → length field ≡ j
      → drop (i + j) whole ≡ rest
  past i j field rest h e =
      drop-drop i j whole ∙ ap (λ xs. drop j xs) h ∙ drop-append_whole j field rest e

  drop-8 : drop 8 whole ≡ author ++ (room ++ (id ++ (time ++ (text_len ++ (text ++ sig)))))
  drop-8 = rw whole_lem (drop-append_whole 8 record_magic _ refl)

  drop-40 : drop 40 whole ≡ room ++ (id ++ (time ++ (text_len ++ (text ++ sig))))
  drop-40 = past 8 32 author _ drop-8 author_len

  drop-72 : drop 72 whole ≡ id ++ (time ++ (text_len ++ (text ++ sig)))
  drop-72 = past 40 32 room _ drop-40 room_len

  drop-88 : drop 88 whole ≡ time ++ (text_len ++ (text ++ sig))
  drop-88 = past 72 16 id _ drop-72 id_len

  drop-96 : drop 96 whole ≡ text_len ++ (text ++ sig)
  drop-96 = past 88 8 time _ drop-88 (length-be_bytes 8 (i64_bits sent_at))

  drop-98 : drop 98 whole ≡ text ++ sig
  drop-98 = past 96 2 text_len _ drop-96 (length-be_bytes 2 (length text))

  pub drop_text : drop (header + length text) whole ≡ sig
  drop_text = past 98 (length text) text sig drop-98 refl

  length-body : length (record_body author room id sent_at text) ≡ header + length text
  unfolding record_body
  length-body = omega (
    arith,
    length-append {0} author,
    length-append {0} room,
    length-append {0} id,
    length-append {0} time,
    length-append {0} text_len,
    length-be_bytes 8 (i64_bits sent_at),
    length-be_bytes 2 (length text),
  )

  pub length-whole : length whole ≡ header + length text + length sig
  length-whole =
      omega (arith, length-append (record_body author room id sent_at text) sig, length-body)

  pub author_lem : slice 8 40 whole ≡ author
  author_lem = ap (λ xs. take 32 xs) drop-8 ∙ take-append 32 author _ author_len

  pub room_lem : slice 40 72 whole ≡ room
  room_lem = ap (λ xs. take 32 xs) drop-40 ∙ take-append 32 room _ room_len

  pub id_lem : slice 72 88 whole ≡ id
  id_lem = ap (λ xs. take 16 xs) drop-72 ∙ take-append 16 id _ id_len

  pub time_lem : slice 88 96 whole ≡ time
  time_lem =
      ap (λ xs. take 8 xs) drop-88 ∙ take-append 8 time _ (length-be_bytes 8 (i64_bits sent_at))

  pub text_len_lem : slice 96 98 whole ≡ text_len
  text_len_lem =
      ap (λ xs. take 2 xs) drop-96 ∙ take-append 2 text_len _ (length-be_bytes 2 (length text))

  pub text_lem : slice header (header + length text) whole ≡ text
  text_lem =
      let e : header + length text - header ≡ length text = omega arith in
      rw e (ap (λ xs. take (length text) xs) drop-98 ∙ take-append (length text) text sig refl)

  pub body_lem : take (header + length text) whole ≡ record_body author room id sent_at text
  body_lem =
      take-append (header + length text) (record_body author room id sent_at text) sig length-body

  pub magic_lem : take 8 whole ≡ record_magic
  magic_lem =
      ap (λ xs. take 8 xs) whole_lem
      ∙ take-append 8 record_magic
          (author ++ (room ++ (id ++ (time ++ (text_len ++ (text ++ sig)))))) refl
