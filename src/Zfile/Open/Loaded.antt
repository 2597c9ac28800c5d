-- ===== src/Zfile/Open/Loaded.antt =====
-- What has been checked of the headers and the index that `load_jump_table` of src/overlaybd/zfile/zfile.cpp loads.
use mathlib.Core.Path.{subst}
use dadi_fast_cdc.Prelude.{ℕ, suc, ◌+◌, ◌*◌, ◌≡◌, refl, sym, ◌∙◌, some, true, false, ◌≤◌, ◌<◌, ◌-◌}
use dadi_fast_cdc.Prelude.{
  List, ◌==◌, ◌&&◌, ==_iff, if◌then◌else◌, arith, length, take, drop, min, not, ltb,
}
use dadi_fast_cdc.Zfile.JumpTable.{JumpTable, built, build}
use dadi_fast_cdc.Zfile.BlockReader.{size_sub}
use dadi_fast_cdc.Zfile.Builder.{HeaderTrailer, space}
use dadi_fast_cdc.Zfile.Compress.{Options}
use dadi_fast_cdc.Zfile.Open.Inversion.{
  bind-some, guard-some, table_of-some, some-inj, both, if_true, read_index-length, if_false, four,
}
use dadi_fast_cdc.Zfile.Open.Pieces.{read_index-part}
use dadi_fast_cdc.Zfile.Open.{
  Disk, words, chunk_bytes, read_header, read_trailer, load_index, load_jump_table,
}

le_of_not-ltb : (a b : ℕ) → not (ltb a b) ≡ true → b ≤ a
le_of_not-ltb a b h = ground arith

module _ {F : Type 0} (disk : Disk F) where
  -- Part `k` of the index is what the file has there.
  abbrev pub AreParts : F → HeaderTrailer → List ℕ → Type 0
  AreParts file ht index =
      (k : ℕ)
      → k * chunk_bytes < ht.index_size * 4
      → disk.file_pread file (min (ht.index_size * 4 - k * chunk_bytes) chunk_bytes)
          (ht.index_offset + k * chunk_bytes)
        ≡ some (take chunk_bytes (drop (k * chunk_bytes) index))

  -- The trailer that stands in for the header `ht0`: the last bytes of the file.
  pub record Trailer (file : F) (ht0 : HeaderTrailer) (pht : Options × HeaderTrailer) : Type 0 where
    pub size : ℕ
    pub size_of : disk.file_size file ≡ some size
    pub of_data : ht0.data_file ≡ true
    pub trailer : List ℕ
    pub read : read_header disk file (size_sub size space) ≡ some trailer
    pub unpacked : disk.unpack trailer ≡ pht
    pub magic : disk.verify_magic trailer ≡ true
    pub is_trailer : (disk.unpack trailer).1.header ≡ false
    pub is_data_file : (disk.unpack trailer).1.data_file ≡ true
    pub is_sealed : (disk.unpack trailer).1.sealed ≡ true
    pub room :
        (disk.unpack trailer).1.index_size * 4
        ≤ size_sub (size_sub size space) (disk.unpack trailer).1.index_offset

  -- The header has its magic and its digest and counts itself where it was written again, else the
  -- trailer does; the index is what the file has at its place, has its checksum, and makes the jump
  -- table.
  pub record Checked (file : F) (o : Options) (ht : HeaderTrailer) (t : JumpTable) : Type 0 where
    pub header : List ℕ
    pub read : read_header disk file 0 ≡ some header
    pub magic : disk.verify_magic header ≡ true
    pub is_header : (disk.unpack header).1.header ≡ true
    pub digest : disk.is_valid header ≡ true
    pub itself : (disk.unpack header).1.header_overwrite ≡ true → disk.unpack header ≡ (o, ht)
    pub by_trailer :
        (disk.unpack header).1.header_overwrite ≡ false
        → Trailer file (disk.unpack header).1 (o, ht)
    pub index : List ℕ
    pub index_of : length index ≡ ht.index_size * 4
    pub parts : AreParts file ht index
    pub crc : ht.digest_enabled ≡ true → disk.crc32c index ≡ ht.index_crc
    pub table : build (words index) (space + o.dict_size) o.block_size o.verify ≡ built t

  -- The index and the table.
  record Indexed (file : F) (pht : Options × HeaderTrailer)
      (result : Options × HeaderTrailer × JumpTable) : Type 0 where
    same : pht ≡ (result.0, result.1)
    index : List ℕ
    index_of : length index ≡ (result.1).index_size * 4
    parts : AreParts file (result.1) index
    crc : (result.1).digest_enabled ≡ true → disk.crc32c index ≡ (result.1).index_crc
    table :
        build (words index) (space + (result.0).dict_size) (result.0).block_size (result.0).verify
        ≡ built result.2

  read_trailer-Trailer :
      (file : F) (ht0 : HeaderTrailer) (pht : Options × HeaderTrailer)
      → read_trailer disk file ht0 ≡ some pht
      → Trailer file ht0 pht
  unfolding read_trailer
  read_trailer-Trailer file ht0 pht h =
      let a = bind-some (disk.file_size file) _ h in
      let g1 = guard-some ht0.data_file _ a.2 in
      let b = bind-some (read_header disk file (size_sub (a.0) space)) _ g1.1 in
      let t = (disk.unpack (b.0)).1 in
      let g2 =
        guard-some (disk.verify_magic (b.0) && not t.header && t.data_file && t.sealed) _ b.2 in
      let g3 =
        guard-some (not (ltb (size_sub (size_sub (a.0) space) t.index_offset) (t.index_size * 4))) _
          g2.1 in
      let flags = four (disk.verify_magic (b.0)) t.header t.data_file t.sealed g2.0 in
      record {
        size = a.0;
        size_of = a.1;
        of_data = g1.0;
        trailer = b.0;
        read = b.1;
        unpacked = some-inj (disk.unpack (b.0)) pht g3.1;
        magic = flags.0;
        is_trailer = flags.1;
        is_data_file = flags.2;
        is_sealed = flags.3;
        room = le_of_not-ltb _ _ g3.0;
      }

  load_index-Indexed :
      (file : F) (o : Options) (ht : HeaderTrailer) (r : Options × HeaderTrailer × JumpTable)
      → load_index disk file (o, ht) ≡ some r
      → Indexed file (o, ht) r
  unfolding load_index
  load_index-Indexed file o ht r h =
      let a = bind-some _ _ h in
      let g =
        guard-some (if ht.digest_enabled then disk.crc32c (a.0) == ht.index_crc else true) _ a.2 in
      let b = bind-some _ _ g.1 in
      let e : (o, ht, b.0) ≡ r = some-inj (o, ht, b.0) r b.2 in
      let size =
        read_index-length disk (suc (ht.index_size * 4)) file ht.index_offset (ht.index_size * 4) 0
          (a.0) a.1 in
      subst (λ r1. Indexed file (o, ht) r1) e
        (record {
          same = refl;
          index = a.0;
          index_of = omega (arith, size);
          parts = λ k within.
              read_index-part disk k (suc (ht.index_size * 4)) file ht.index_offset
                (ht.index_size * 4) (a.0) a.1 within;
          crc = λ on.
              (==_iff (disk.crc32c (a.0)) ht.index_crc).0
                (sym (if_true ht.digest_enabled (disk.crc32c (a.0) == ht.index_crc) true on) ∙ g.0);
          table =
              table_of-some (build (words (a.0)) (space + o.dict_size) o.block_size o.verify) b.1;
        })

  pub load_jump_table-Checked :
      (file : F) (o : Options) (ht : HeaderTrailer) (t : JumpTable)
      → load_jump_table disk file ≡ some (o, ht, t)
      → Checked file o ht t
  unfolding load_jump_table
  load_jump_table-Checked file o ht t h =
      let a = bind-some _ _ h in
      let header = a.0 in
      let g1 = guard-some (disk.verify_magic header && (disk.unpack header).1.header) _ a.2 in
      let g2 = guard-some (disk.is_valid header) _ g1.1 in
      let s = bind-some (disk.file_size file) _ g2.1 in
      let trailer = read_trailer disk file (disk.unpack header).1 in
      let p =
        bind-some
          (if (disk.unpack header).1.header_overwrite then some (disk.unpack header) else trailer)
          (load_index disk file) s.2 in
      let i = load_index-Indexed file (p.0).0 (p.0).1 (o, ht, t) p.2 in
      let m = both (disk.verify_magic header) (disk.unpack header).1.header g1.0 in
      record {
        header = header;
        read = a.1;
        magic = m.0;
        is_header = m.1;
        digest = g2.0;
        itself = λ over.
            some-inj (disk.unpack header) (p.0) (
              sym (
                if_true (disk.unpack header).1.header_overwrite (some (disk.unpack header)) trailer
                  over)
              ∙ p.1)
            ∙ i.same;
        index = i.index;
        by_trailer = λ kept. subst (Trailer file (disk.unpack header).1) i.same (
            read_trailer-Trailer file (disk.unpack header).1 (p.0) (
              sym (
                if_false (disk.unpack header).1.header_overwrite (some (disk.unpack header)) trailer
                  kept)
              ∙ p.1));
        index_of = i.index_of;
        parts = i.parts;
        crc = i.crc;
        table = i.table;
      }
