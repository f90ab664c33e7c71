-- ===== src/EvictablePage.antt =====
-- src/persistence_layer/file_io/evictable_page.rs: a page of the database file in memory. Its bytes
-- start with the addresses of the previous and the next page of its list; the lowest bit of its own
-- address tells that the page is dirty.

pub mod Links
use elektro_em_eukal.Base.{
  ℕ, ◌+◌, ◌-◌, ◌*◌, ◌/◌, ◌%◌, Bool, not, Option, none, some, List, [], ◌∷◌, ◌==◌, length,
}
use elektro_em_eukal.Anchors.{Error, Result, ok, err}
use elektro_em_eukal.LogRecord.Parts.{read_part, bytes_of, drop}
use elektro_em_eukal.RandomAccessFile.{RandomAccessFile, Fault, read, write, write_at}

abbrev pub page_size : ℕ
page_size = 512

abbrev pub page_header_len : ℕ
page_header_len = 16

pub record EvictablePage : Type 0 where
  pub address_and_dirty_flag : ℕ
  pub page_buffer : List ℕ

unfoldable pub from_file : RandomAccessFile → ℕ → Option ℕ → Result EvictablePage
from_file db address fault = elim (read db page_size address fault) [
  | err e ↦ err e
  | ok bytes ↦ ok (record { address_and_dirty_flag = address; page_buffer = bytes })
]

-- The address without its lowest bit.
unfoldable pub address : EvictablePage → ℕ
address p = p.address_and_dirty_flag - p.address_and_dirty_flag % 2

unfoldable pub is_dirty : EvictablePage → Bool
is_dirty p = not (p.address_and_dirty_flag % 2 == 0)

unfoldable pub set_dirty : EvictablePage → EvictablePage
set_dirty p = record p {
  address_and_dirty_flag = p.address_and_dirty_flag - p.address_and_dirty_flag % 2 + 1;
}

-- The number in the eight bytes at an offset; a page has more bytes than are read here.
unfoldable pub word_at : ℕ → List ℕ → ℕ
unfolding read_part drop
word_at offset bytes = elim (read_part 8 (drop offset bytes)) [ none ↦ 0 | some (v, rest) ↦ v ]

unfoldable pub prev_page_address : EvictablePage → ℕ
unfolding word_at
prev_page_address p = word_at 0 p.page_buffer

unfoldable pub set_prev_page_address : ℕ → EvictablePage → EvictablePage
unfolding bytes_of write_at
set_prev_page_address prev_page p = record p {
  page_buffer = write_at p.page_buffer 0 (bytes_of 8 prev_page);
}

unfoldable pub next_page_address : EvictablePage → ℕ
unfolding word_at
next_page_address p = word_at 8 p.page_buffer

unfoldable pub set_next_page_address : ℕ → EvictablePage → EvictablePage
unfolding bytes_of write_at
set_next_page_address next_page p = record p {
  page_buffer = write_at p.page_buffer 8 (bytes_of 8 next_page);
}

-- The bytes behind the header.
unfoldable pub page_content : EvictablePage → List ℕ
unfolding drop
page_content p = drop page_header_len p.page_buffer

unfoldable pub write_back :
    EvictablePage
    → RandomAccessFile
    → Option Fault
    → EvictablePage × RandomAccessFile × Result (Unit {0})
unfolding address write
write_back p db fault =
    let (db', r) = write db p.page_buffer (address p) fault in
    elim r [
      | err e ↦ (p, db', err e)
      | ok u ↦ (record p { address_and_dirty_flag = address p }, db', ok tt)
    ]
