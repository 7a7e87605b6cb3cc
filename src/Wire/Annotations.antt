-- ===== src/Wire/Annotations.antt =====
-- The annotations on the wire: how many fit, and the loop that writes them.
use dapper_lite.Prelude.{
  ℕ, zero, suc, ◌+◌, ◌<◌, ◌≤◌, ◌^◌, ◌≡◌, refl, ap, ap₂, Bool-cases, inl, inr, append-nil, List, [],
  ◌∷◌, ◌++◌, arith, ltb, length, drop, length-append, All, append_assoc, drop-drop,
}
use native.Mathlib.Nat.{mod-eq_of_lt, add_assoc}
use dapper_lite.Prelude.Outcome.{ok}
use dapper_lite.Memory.{read_bytes_lem}
use dapper_lite.ByteOrder.{Host}
use dapper_lite.Core.{Annotation}
use dapper_lite.Core.Strings.{c_str, strlen, strlen-le-length, length-c_str, take-strlen}
use dapper_lite.Wire.{serialize_annotation_count, serialize_string, serialize_annotations}
use dapper_lite.Wire.Layout.{
  string_bytes, annotations_bytes, annotation_length, fitting, IsAnnotation, length-string_bytes,
}
use dapper_lite.Wire.Cursor.{Cursor, write_bytes-Writes, write_u16-Writes}

serialize_string-Writes :
    (host : Host) (done rest text : List ℕ) (bufsize off : ℕ)
    → Cursor done rest off bufsize
    → strlen text < 2 ^ 16
    → off + 2 + strlen text ≤ bufsize
    → (serialize_string host (done ++ rest) bufsize off text
        ≡ ok (
          (done ++ string_bytes (c_str text)) ++ drop (2 + strlen text) rest,
          off + 2 + strlen text,
        ))
      × Cursor
          (done ++ string_bytes (c_str text))
          (drop (2 + strlen text) rest)
          (off + 2 + strlen text)
          bufsize
unfolding serialize_string string_bytes
serialize_string-Writes host done rest text bufsize off c l h =
    let w1 = write_u16-Writes host done rest off bufsize (strlen text) c (omega arith) l in
    let w2 =
      write_bytes-Writes _ _ (c_str text) (strlen text) (off + 2) bufsize w1.1 (length-c_str text)
        h in
    (
      rw
          (
            mod-eq_of_lt l,
            w1.0,
            read_bytes_lem text 0 (strlen text) (omega (arith, strlen-le-length text)),
            take-strlen,
            w2.0,
          )
          (simp (drop-drop, append_assoc, length-c_str)),
      simp length-c_str (simp (drop-drop, append_assoc) at (w2.1)),
    )

-- The greedy count, with enough slots for the rounds: it is `fitting`, and what it lets in fits.
pub serialize_annotation_count_lem :
    (rounds : ℕ) (slots : List Annotation) (bufsize pos : ℕ)
    → rounds ≤ length slots
    → serialize_annotation_count rounds slots bufsize pos ≡ ok (fitting rounds slots bufsize pos)
unfolding serialize_annotation_count fitting
serialize_annotation_count_lem zero slots bufsize pos h = refl
serialize_annotation_count_lem (suc rounds) [] bufsize pos h = absurd (omega arith)
serialize_annotation_count_lem (suc rounds) (a ∷ slots) bufsize pos h = ground (
  arith,
  length-c_str a.key,
  length-c_str a.value,
  serialize_annotation_count_lem rounds slots bufsize (pos + annotation_length a) (omega arith),
)

pub fitting-le :
    (rounds : ℕ) (slots : List Annotation) (bufsize pos : ℕ)
    → fitting rounds slots bufsize pos ≤ rounds
unfolding fitting
fitting-le zero slots bufsize pos = omega arith
fitting-le (suc rounds) [] bufsize pos = omega arith
fitting-le (suc rounds) (a ∷ slots) bufsize pos =
    ground (arith, fitting-le rounds slots bufsize (pos + annotation_length a))

annotations_bytes-cons :
    (n : ℕ) (a : Annotation) (slots : List Annotation)
    → annotations_bytes (suc n) (a ∷ slots)
      ≡ string_bytes (c_str a.key) ++ (string_bytes (c_str a.value) ++ annotations_bytes n slots)
unfolding annotations_bytes
annotations_bytes-cons n a slots = refl

pub length-annotations_bytes_step :
    (n : ℕ) (a : Annotation) (slots : List Annotation)
    → length (annotations_bytes (suc n) (a ∷ slots))
      ≡ annotation_length a + length (annotations_bytes n slots)
unfolding annotations_bytes
length-annotations_bytes_step n a slots = omega (
  arith,
  length-append {A = ℕ} (string_bytes (c_str a.key))
      (string_bytes (c_str a.value) ++ annotations_bytes n slots),
  length-append {A = ℕ} (string_bytes (c_str a.value)) (annotations_bytes n slots),
  length-string_bytes (c_str a.key),
  length-string_bytes (c_str a.value),
  length-c_str a.key,
  length-c_str a.value,
)

pub fitting_fits :
    (rounds : ℕ) (slots : List Annotation) (bufsize pos : ℕ)
    → pos ≤ bufsize
    → pos + length (annotations_bytes (fitting rounds slots bufsize pos) slots) ≤ bufsize
unfolding fitting annotations_bytes
fitting_fits zero slots bufsize pos h = omega arith
fitting_fits (suc rounds) [] bufsize pos h = omega arith
fitting_fits (suc rounds) (a ∷ slots) bufsize pos h =
    elim (Bool-cases (ltb bufsize (pos + annotation_length a))) [
      | inl full ↦ rw full (omega arith)
      | inr room ↦ rw room (
          omega (
            arith,
            fitting_fits rounds slots bufsize (pos + annotation_length a) (ground arith),
            length-annotations_bytes_step (fitting rounds slots bufsize (pos + annotation_length a))
                a slots,
          ))
    ]

-- The loop writes the layout of its annotations behind the cursor.
pub serialize_annotations_lem :
    (host : Host) (n : ℕ) (slots : List Annotation) (done rest : List ℕ) (bufsize off : ℕ)
    → Cursor done rest off bufsize
    → All IsAnnotation slots
    → n ≤ length slots
    → off + length (annotations_bytes n slots) ≤ bufsize
    → serialize_annotations host n slots (done ++ rest) bufsize off
      ≡ ok (
        (done ++ annotations_bytes n slots) ++ drop (length (annotations_bytes n slots)) rest,
        off + length (annotations_bytes n slots),
      )
unfolding serialize_annotations strlen
serialize_annotations_lem host zero slots done rest bufsize off c w l h =
    unfold annotations_bytes in
    rw (append-nil done) (ap (λ (k : ℕ). ok (done ++ rest, k)) (omega arith))
serialize_annotations_lem host (suc n) [] done rest bufsize off c w l h = absurd (omega arith)
serialize_annotations_lem host (suc n) (a ∷ slots) done rest bufsize off c (wa, ws) l h =
    let total = length-annotations_bytes_step n a slots in
    let s1 =
      serialize_string-Writes host done rest a.key bufsize off c (omega (arith, wa.0.short))
        (omega (arith, total)) in
    let s2 =
      serialize_string-Writes host _ _ a.value bufsize (off + 2 + strlen a.key) s1.1
        (omega (arith, wa.1.short)) (omega (arith, total)) in
    let ih =
      serialize_annotations_lem host n slots _ _ bufsize
        (off + 2 + strlen a.key + 2 + strlen a.value) s2.1 ws (omega arith)
        (omega (arith, total)) in
    rw (s1.0, s2.0, ih, total)
      (ap₂ (λ (x : List ℕ) (y : ℕ). ok (x, y))
        (simp (annotations_bytes-cons, append_assoc, drop-drop, add_assoc)) (omega arith))
