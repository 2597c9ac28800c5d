-- ===== src/Zfile/Compress/Layout.antt =====
-- The zfile when `zfile_compress` of src/overlaybd/zfile/zfile.cpp has written it, with FastCDC.
use mathlib.Core.List.{append_assoc}
use dadi_fast_cdc.Prelude.{ℕ, ◌-◌, ◌≡◌, refl, ap, ◌∙◌, Bool, true, false}
use dadi_fast_cdc.Prelude.{
  List, ◌++◌, ==_iff, if◌then◌else◌, arith, length, drop, drop-append_right, concat,
}
use dadi_fast_cdc.Zfile.Builder.{HeaderTrailer, set_flags, index_bytes}
use dadi_fast_cdc.Zfile.Compress.{
  Options, Compression, took_just, first_header, trailer, write_trailer, write_indexes,
}
use dadi_fast_cdc.Zfile.Compress.Blocks.{Services, Kept}

module _ {D : Type 0} (o : Options) (nbatch : ℕ) (w : Services D o.block_size nbatch)
    (fast : o.is_fastcdc ≡ true) where
  abbrev pub last_header : Compression D → HeaderTrailer
  last_header s = trailer w.disk.crc32c w.write_to w.pwrite_to w.pack o s

  -- The header in the file, written again or not.
  abbrev pub head : Bool → Compression D → List ℕ
  head again s =
      w.pack o (if again then set_flags (last_header s) true false true true else first_header)

  -- What stands behind the codes.
  abbrev pub tail : Compression D → List ℕ
  tail s = index_bytes s.block_len ++ (index_bytes s.raw_block_len ++ w.pack o (last_header s))

  took_just-all : (d : D) (xs : List ℕ) → took_just ((w.write_to d xs).1) (length xs) ≡ true
  took_just-all d xs = rw (w.takes.all d xs) ((==_iff (length xs) (length xs)).1 refl)

  write_trailer-lem :
      (again : Bool) (s : Compression D) (body : List ℕ)
      → w.contents s.dest ≡ w.pack o first_header ++ body
      → (d : D) × (write_trailer w.disk.crc32c w.write_to w.pwrite_to w.pack o again s
          ≡ (record s { dest = d }, true))
        × (w.contents d ≡ head again s ++ (body ++ w.pack o (last_header s)))
  unfolding write_trailer
  write_trailer-lem again s body held =
      let h = w.pack o first_header in
      let t = w.pack o (last_header s) in
      let new = w.pack o (set_flags (last_header s) true false true true) in
      let d1 = (w.write_to s.dest t).0 in
      let laws = w.rewrites o in
      let appended : w.contents d1 ≡ h ++ (body ++ t) =
        w.takes.behind s.dest t ∙ ap (λ l. l ++ t) held ∙ append_assoc h body t in
      let none_left : length new - length h ≡ 0 = omega (
        arith,
        laws.packed (set_flags (last_header s) true false true true),
        laws.packed first_header,
      ) in
      elim again
        as (λ again.
          (d : D) × (write_trailer w.disk.crc32c w.write_to w.pwrite_to w.pack o again s
            ≡ (record s { dest = d }, true))
          × (w.contents d ≡ head again s ++ (body ++ w.pack o (last_header s)))) [
            | false ↦ (d1, rw (w.takes.all s.dest t) refl, appended)
            | true ↦ (
              (w.pwrite_to d1 new 0).0,
              rw (w.takes.all s.dest t, laws.all d1 new) refl,
              laws.over d1 new
                  ∙ ap (λ l. new ++ drop (length new) l) appended
                  ∙ ap (λ l. new ++ l)
                      (drop-append_right (length new) h (body ++ t)
                          (omega (arith, none_left, laws.packed first_header))
                        ∙ ap (λ (k : ℕ). drop k (body ++ t)) none_left),
            )
          ]

  -- The zfile, from the state after the loop.
  pub write_indexes-lem :
      (again : Bool) (s : Compression D) (whole : List ℕ) (total : ℕ)
      → (k : Kept o nbatch w o.block_size (w.pack o first_header) s whole total)
      → (d : D) × (write_indexes w.disk.crc32c w.write_to w.pwrite_to w.pack o again s
          ≡ (record s { dest = d }, true))
        × (w.contents d ≡ head again s ++ (concat k.codes ++ tail s))
  unfolding write_indexes
  write_indexes-lem again s whole total k =
      let index = index_bytes s.block_len in
      let raw_index = index_bytes s.raw_block_len in
      let d1 = (w.write_to s.dest index).0 in
      let d2 = (w.write_to d1 raw_index).0 in
      let h = w.pack o first_header in
      let body = concat k.codes ++ (index ++ raw_index) in
      let held : w.contents d2 ≡ h ++ body =
        w.takes.behind d1 raw_index
        ∙ ap (λ l. l ++ raw_index) (w.takes.behind s.dest index ∙ ap (λ l. l ++ index) k.stored)
        ∙ append_assoc (h ++ concat k.codes) index raw_index
        ∙ append_assoc h (concat k.codes) (index ++ raw_index) in
      let r = write_trailer-lem again (record s { dest = d2 }) body held in
      let t = w.pack o (last_header s) in
      rw (took_just-all s.dest index) (
        r.0,
        ap
              (λ b.
                if b
                then (if took_just ((w.write_to d1 raw_index).1) (length raw_index)
                    then write_trailer w.disk.crc32c w.write_to w.pwrite_to w.pack o again
                        (record s { dest = d2 })
                    else (record s { dest = d2 }, false))
                else write_trailer w.disk.crc32c w.write_to w.pwrite_to w.pack o again
                    (record s { dest = d1 }))
              fast
            ∙ rw (took_just-all d1 raw_index) r.1,
        r.2
            ∙ ap (λ l. head again s ++ l)
                (append_assoc (concat k.codes) (index ++ raw_index) t
                  ∙ ap (λ l. concat k.codes ++ l) (append_assoc index raw_index t)),
      )
