-- ===== src/Download/Success.antt =====
-- What a resumed download that succeeds leaves at the destination.
use rong.Base.{
  ℕ, ◌+◌, ◌-◌, ◌≤◌, ◌^◌, ◌≡◌, ◌∙◌, refl, ap, sym, inl, inr, Bool, true, false, Option, none, some,
  List, ◌++◌, length, length-append, arith, ◌==◌, nat_eq, nat_beq_iff, leb, Bool-cases,
  if◌then◌else◌,
}
use rong.Download.Range.{
  ContentRange, bytes_range, unsatisfied, parse_content_range, IsOrdered, IsParsed,
  parse_content_range-IsParsed,
}
use rong.Download.{
  Bytes, BodyItem, DownloadError, Result, ok, err, Field, missing, not_text, text, Response, Faults,
  Disk, Ended, finalize_sink, is_success, content_range, or_invalid, write_items, items_of, renamed,
  finish_rename, finish_body, receive, with_range, respond,
}
use rong.Download.Body.{item_bytes, write_items_ok, write_items-IsApart}
use rong.Download.Keeps.{finalize-dest, finalize-result}

-- The complete length that a content range states.
abbrev pub complete_length : Result ContentRange → Option ℕ
complete_length (ok (bytes_range a b total)) = total
complete_length (ok (unsatisfied total)) = total
complete_length (err e) = none

-- The destination holds what was there and the body, and that is as long as the range said; no other
-- file is left beside it.
abbrev pub IsWhole : Bool → Bytes → Bytes → Result ContentRange → Ended → Type 0
IsWhole is_same old body range e =
    (e.1.dest ≡ some (old ++ body))
    × (e.1.part ≡ (if is_same then some (old ++ body) else none))
    × (complete_length range ≡ some (length (old ++ body)))

abbrev IsSound : Result ContentRange → Type 0
IsSound (ok r) = IsOrdered r
IsSound (err e) = Unit

finalize-part : (d : Disk) (r : Result Unit) → (finalize_sink d r).1.part ≡ d.part
unfolding finalize_sink
finalize-part d r = elim (Bool-cases d.has_sink) [ inl e ↦ rw e refl | inr e ↦ rw e refl ]

fails_lem : (d : Disk) (e : DownloadError) → ¬ ((finalize_sink d (err e)).0 ≡ ok tt)
fails_lem d e h = let q : err e ≡ ok tt = sym (finalize-result d (err e)) ∙ h in cc

finish_rename_ok :
    (fails : Bool) (d : Disk)
    → (finish_rename fails d).0 ≡ ok tt
    → ((finish_rename fails d).1.dest ≡ d.part)
      × ((finish_rename fails d).1.part ≡ (if d.is_same then d.part else none))
finish_rename_ok true d h = absurd (fails_lem d _ h)
finish_rename_ok false d h = (finalize-dest (renamed d) (ok tt), finalize-part (renamed d) (ok tt))

-- An ending that succeeds has moved the file, and the length was the expected one.
finish_body_ok :
    (faults : Faults) (expected n : ℕ) (d : Disk)
    → (finish_body faults (some expected) (ok n, d)).0 ≡ ok tt
    → (n ≡ expected)
      × ((finish_body faults (some expected) (ok n, d)).1.dest ≡ d.part)
      × ((finish_body faults (some expected) (ok n, d)).1.part
          ≡ (if d.is_same then d.part else none))
finish_body_ok faults expected n d h = elim (Bool-cases (n == expected)) [
  | inr e ↦ absurd (fails_lem d _ (rw e at h))
  | inl e ↦ elim (Bool-cases faults.on_flush) [
    | inl f ↦ absurd (fails_lem d _ (rw (e, f) at h))
    | inr f ↦
        let k = finish_rename_ok faults.on_rename d (rw (e, f) at h) in
        rw (e, f) ((nat_beq_iff n expected).0 e, k.0, k.1)
  ]
]

body_ok :
    (faults : Faults) (expected : ℕ) (items : List BodyItem) (d : Disk) (old : Bytes)
    (w : Result ℕ × Disk)
    → w ≡ write_items (some expected) items 0 d
    → d.part ≡ some old
    → (finish_body faults (some expected) w).0 ≡ ok tt
    → ((finish_body faults (some expected) w).1.dest ≡ some (old ++ item_bytes items))
      × ((finish_body faults (some expected) w).1.part
          ≡ (if d.is_same then some (old ++ item_bytes items) else none))
      × (length (item_bytes items) ≡ expected)
body_ok faults expected items d old (err e, d') q p h = absurd (fails_lem d' e h)
body_ok faults expected items d old (ok n, d') q p h =
    let k = finish_body_ok faults expected n d' h in
    let m = write_items_ok (some expected) items 0 n d old p (ap (λ r. r.0) (sym q)) in
    let part : d'.part ≡ some (old ++ item_bytes items) = ap (λ r. r.1.part) q ∙ m.0 in
    let same : d'.is_same ≡ d.is_same =
      ap (λ r. r.1.is_same) q ∙ (write_items-IsApart (some expected) items 0 d).0 in
    (
      k.1 ∙ part,
      k.2
          ∙ ap (λ b. if b then d'.part else none) same
          ∙ ap (λ o. if d.is_same then o else none) part,
      omega (arith, m.1, k.0),
    )

receive_ok :
    (faults : Faults) (expected : ℕ) (resp : Response) (d : Disk) (old : Bytes)
    → resp.status ≡ 206
    → d.part ≡ some old
    → (receive faults (some expected) resp d).0 ≡ ok tt
    → ((receive faults (some expected) resp d).1.dest
        ≡ some (old ++ item_bytes (items_of resp.body)))
      × ((receive faults (some expected) resp d).1.part
          ≡ (if d.is_same then some (old ++ item_bytes (items_of resp.body)) else none))
      × (length (item_bytes (items_of resp.body)) ≡ expected)
unfolding receive is_success
receive_ok faults expected resp d old s p h =
    rw s (body_ok faults expected (items_of resp.body) d old _ refl p (rw s at h))

range_ok :
    (faults : Faults) (range : Result ContentRange) (resp : Response) (d : Disk) (old : Bytes)
    → IsSound range
    → resp.status ≡ 206
    → d.part ≡ some old
    → (with_range faults (length old) range resp d).0 ≡ ok tt
    → IsWhole d.is_same old
        (item_bytes (items_of resp.body))
        range
        (with_range faults (length old) range resp d)
range_ok faults (err e) resp d old o s p h = absurd (fails_lem d _ h)
range_ok faults (ok (unsatisfied total)) resp d old o s p h = absurd (fails_lem d _ h)
range_ok faults (ok (bytes_range a b none)) resp d old o s p h =
    elim (Bool-cases (a == length old)) [
      | inr e ↦ absurd (fails_lem d _ (rw e at h))
      | inl e ↦ elim (Bool-cases (leb (2 ^ 64) (b + 1))) [
        | inl f ↦ absurd (fails_lem d _ (rw (e, f) at h))
        | inr f ↦ absurd (fails_lem d _ (rw (e, f) at h))
      ]
    ]
range_ok faults (ok (bytes_range a b (some total))) resp d old o s p h =
    elim (Bool-cases (a == length old)) [
      | inr e ↦ absurd (fails_lem d _ (rw e at h))
      | inl e ↦ elim (Bool-cases (leb (2 ^ 64) (b + 1))) [
        | inl f ↦ absurd (fails_lem d _ (rw (e, f) at h))
        | inr f ↦ elim (Bool-cases (b + 1 == total)) [
          | inr g ↦ absurd (fails_lem d _ (rw (e, f, g) at h))
          | inl g ↦
              let k = receive_ok faults (b - a + 1) resp d old s p (rw (e, f, g) at h) in
              rw (e, f, g)
                (
                  k.0,
                  k.1,
                  ap some (
                      omega (
                        arith,
                        k.2,
                        length-append old (item_bytes (items_of resp.body)),
                        (nat_beq_iff a (length old)).0 e,
                        (nat_beq_iff (b + 1) total).0 g,
                        o.0,
                      )),
                )
        ]
      ]
    ]

invalid-IsSound : (o : Option ContentRange) → IsParsed o → IsSound (or_invalid o)
invalid-IsSound none h = tt
invalid-IsSound (some r) h = h

content_range-IsSound : (f : Field) → IsSound (content_range f)
unfolding content_range
content_range-IsSound missing = tt
content_range-IsSound not_text = tt
content_range-IsSound (text value) =
    invalid-IsSound (parse_content_range value) (parse_content_range-IsParsed value)

respond-range :
    (faults : Faults) (offset : ℕ) (resp : Response) (d : Disk)
    → offset == 0 ≡ false
    → resp.status ≡ 206
    → respond faults offset resp d
      ≡ with_range faults offset (content_range resp.content_range_field) resp d
unfolding respond
respond-range faults offset resp d e s =
    let f : resp.status == 200 ≡ false = rw s refl in
    let g : resp.status == 206 ≡ true = rw s refl in rw (e, f, g) refl

-- A download that is resumed behind the bytes `old` and answered with a part of the content: when
-- it succeeds, the destination holds `old` and behind it the whole body, these together are as long
-- as the complete length that the range of the answer states, and the `.part` file is gone, if it is
-- not the destination itself.
pub respond-IsWhole :
    (faults : Faults) (resp : Response) (d : Disk) (old : Bytes)
    → d.part ≡ some old
    → 1 ≤ length old
    → resp.status ≡ 206
    → (respond faults (length old) resp d).0 ≡ ok tt
    → IsWhole d.is_same old
        (item_bytes (items_of resp.body))
        (content_range resp.content_range_field)
        (respond faults (length old) resp d)
respond-IsWhole faults resp d old p l s h =
    let k = respond-range faults (length old) resp d (ground arith) s in
    rw k (
      range_ok faults (content_range resp.content_range_field) resp d old
        (content_range-IsSound resp.content_range_field) s p (ap (λ e. e.0) (sym k) ∙ h))
