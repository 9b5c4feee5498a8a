-- ===== src/Lvm/Reports/RoundTrip.antt =====
-- `Pvs` of core/lvm/lvm.go reads the lines of a report back.
use albius.Base.{
  ℕ, ◌≡◌, refl, true, some, List, [], ◌∷◌, ◌++◌, map, Text, text, has_prefix, split, join, All,
  nat_eq, list_eq, arith,
}
use albius.Base.Splitting.{Lacks, split-join, Lacks-join}
use albius.Machine.{Platform}
use albius.Machine.Results.{ok}
use albius.Lvm.Attrs.{parse_pv_attrs}
use albius.Lvm.Types.{Pv}
use albius.Lvm.Reports.{parse_pv, parse_pvs}

module _ ⦃P : Platform⦄ where
  -- A line of `pvs` by its fields, and the PV that it describes.
  pub record Row : Type 0 where
    pub pv : Pv
    pub attr : Text
    pub size : Text
    pub free : Text

  abbrev pub fields : Row → List Text
  fields r = r.pv.path ∷ r.pv.vg_name ∷ r.pv.pv_fmt ∷ r.attr ∷ r.size ∷ r.free ∷ []

  abbrev pub line : Row → Text
  line r = join (fields r) (b',' ∷ [])

  pub record IsRow (r : Row) : Type 0 where
    pub no_comma : All (Lacks b',') (fields r)
    pub no_newline : All (Lacks b'\n') (fields r)
    pub is_path : has_prefix r.pv.path (text "/") ≡ true
    pub reads_attr : parse_pv_attrs r.attr ≡ ok r.pv.attr
    pub reads_size : P.parse_float r.size ≡ some r.pv.size
    pub reads_free : P.parse_float r.free ≡ some r.pv.free

  parse_pv-fields : (r : Row) → IsRow r → parse_pv (fields r) ≡ ok r.pv
  unfolding parse_pv
  parse_pv-fields r h = rw (h.reads_attr, h.reads_size, h.reads_free)

  split-line : (r : Row) → IsRow r → split b',' (line r) ≡ fields r
  split-line r h = split-join b',' r.pv.path _ h.no_comma

  has_prefix-append_left :
      (c : ℕ) (s t : Text) → has_prefix s (c ∷ []) ≡ true → has_prefix (s ++ t) (c ∷ []) ≡ true
  unfolding has_prefix
  has_prefix-append_left c [] t h = cc
  has_prefix-append_left c (d ∷ s) t h = ground arith

  line_is_path : (r : Row) → IsRow r → has_prefix (line r) (text "/") ≡ true
  unfolding join text
  line_is_path r h = has_prefix-append_left b'/' r.pv.path _ h.is_path

  parse_pvs-lines :
      (rows : List Row) → All IsRow rows → parse_pvs (map line rows) ≡ ok (map (λ r. r.pv) rows)
  unfolding parse_pvs
  parse_pvs-lines [] h = refl
  parse_pvs-lines (r ∷ rows) (hr, h) =
      rw (line_is_path r hr, split-line r hr, parse_pv-fields r hr, parse_pvs-lines rows h)

  lines_lack : (rows : List Row) → All IsRow rows → All (Lacks b'\n') (map line rows)
  lines_lack [] h = tt
  lines_lack (r ∷ rows) (hr, h) =
      (Lacks-join b'\n' (b',' ∷ []) (fields r) (omega arith) hr.no_newline, lines_lack rows h)

  -- The PVs of a report are read back, whatever their number, where each line begins with the path
  -- of its PV, which begins with a slash, with no indentation in front of it; no field holds a comma
  -- or a line break, and the attributes and numbers can be read. The lines of pvs are indented as a
  -- rule, and then this is for a report of one PV only, after the trimming.
  pub parse_pvs-report :
      (r : Row) (rows : List Row)
      → All IsRow (r ∷ rows)
      → parse_pvs (split b'\n' (join (map line (r ∷ rows)) (b'\n' ∷ [])))
        ≡ ok (map (λ (r : Row). r.pv) (r ∷ rows))
  parse_pvs-report r rows h =
      rw (split-join b'\n' (line r) (map line rows) (lines_lack (r ∷ rows) h))
        (parse_pvs-lines (r ∷ rows) h)

  -- LVM indents the lines of a report; the trimming of the output takes the first indentation off.
  abbrev pub indented : Row → Text
  indented r = b' ' ∷ b' ' ∷ line r

  parse_pvs-indented : (rows : List Row) → parse_pvs (map indented rows) ≡ ok []
  unfolding parse_pvs has_prefix text
  parse_pvs-indented [] = refl
  parse_pvs-indented (r ∷ rows) = parse_pvs-indented rows

  indented_lack : (rows : List Row) → All IsRow rows → All (Lacks b'\n') (map indented rows)
  indented_lack [] h = tt
  indented_lack (r ∷ rows) (hr, h) = (
    (
      omega arith,
      (omega arith, Lacks-join b'\n' (b',' ∷ []) (fields r) (omega arith) hr.no_newline),
    ),
    indented_lack rows h,
  )

  -- Of a report whose further lines are indented only the first PV is read.
  pub parse_pvs-report_indented :
      (r : Row) (rows : List Row)
      → All IsRow (r ∷ rows)
      → parse_pvs (split b'\n' (join (line r ∷ map indented rows) (b'\n' ∷ []))) ≡ ok (r.pv ∷ [])
  parse_pvs-report_indented r rows (hr, h) =
      rw
        (split-join b'\n' (line r) (map indented rows)
          ((lines_lack (r ∷ []) (hr, tt)).0, indented_lack rows h))
        (unfold parse_pvs in
          rw (line_is_path r hr, split-line r hr, parse_pv-fields r hr, parse_pvs-indented rows))
