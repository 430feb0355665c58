-- ===== src/Png/Decode.antt =====
-- platform/native/png.c as a whole: a reader of the file gets the picture back.
use katam_port.Base.{
  ℕ, suc, ◌^◌, ◌<◌, List, [], ◌++◌, Option, none, some, ◌==◌, if◌then◌else◌, length, drop,
}
use katam_port.Png.{chunk, adler, zlib, zlib_size, ihdr, ihdr_kind, idat_kind, iend_kind}
use katam_port.Png.Chunks.{read_be32, Chunk, read_chunk}
use katam_port.Png.Blocks.{inflate}

pub record Picture : Type 0 where
  pub width : ℕ
  pub height : ℕ
  pub raw : List ℕ

-- The bytes behind the two of the zlib header, if their Adler-32 is right.
abbrev checked : Option (List ℕ × List ℕ) → Option (List ℕ)
checked none = none
checked (some (raw, tail)) = if read_be32 tail == adler 1 0 raw then some raw else none

unfoldable pub unzip : List ℕ → Option (List ℕ)
unzip z = checked (inflate (suc (length z)) (drop 2 z))

abbrev picture : Chunk → Option (List ℕ) → Option Picture
picture header none = none
picture header (some raw) = some (record {
  width = read_be32 header.content;
  height = read_be32 (drop 4 header.content);
  raw = raw;
})

abbrev with_image : Chunk → Option Chunk → Option Picture
with_image header none = none
with_image header (some image) = picture header (unzip image.content)

abbrev with_header : Option Chunk → Option Picture
with_header none = none
with_header (some header) = with_image header (read_chunk header.rest)

-- A reader of a PNG file with one IDAT chunk.
unfoldable pub read_png : List ℕ → Option Picture
read_png bs = with_header (read_chunk (drop 8 bs))

abbrev pub read_written : Option (List ℕ) → Option Picture
read_written none = none
read_written (some bs) = read_png bs

module _ (raw : List ℕ) (w h : ℕ) (some_byte : 0 < length raw)
    (small : zlib_size (length raw) < 2 ^ 32) where
  abbrev file_end : List ℕ
  file_end = chunk idat_kind (zlib raw) ++ chunk iend_kind []

  abbrev header : Chunk
  header = record { kind = ihdr_kind; content = ihdr w h; rest = file_end }
