-- ===== src/Download/Keeps.antt =====
-- A download that fails leaves the destination alone.
use rong.Base.{
  ℕ, ◌+◌, ◌-◌, ◌^◌, ◌≡◌, ◌⊎◌, ◌∙◌, [], refl, subst, inl, inr, Bool, true, false, Option, none, some,
  List, if◌then◌else◌, ◌==◌, nat_eq, leb, Bool-cases,
}
use rong.Text.{Text}
use rong.Download.Range.{ContentRange, bytes_range, unsatisfied}
use rong.Download.{
  Bytes, Result, ok, err, Response, Hop, Faults, Disk, Ended, finalize_sink, is_success,
  content_range, truncate, write_items, items_of, renamed, finish_rename, differs, finish_body,
  receive, with_length, with_range, is_complete, respond, resume_offset, set_part,
}
use rong.Download.Body.{IsApart, set_part-IsApart, write_items-IsApart}
use rong.Download.Follow.{
  Followed, waits, failed, got, follow, opened, after_follow, download_resource,
}

abbrev pub Keeps : Option Bytes → Ended → Type 0
Keeps old e = (e.1.dest ≡ old) ⊎ (e.0 ≡ ok tt)

pub finalize-dest : (d : Disk) (r : Result Unit) → (finalize_sink d r).1.dest ≡ d.dest
unfolding finalize_sink
finalize-dest d r = elim (Bool-cases d.has_sink) [ inl e ↦ rw e refl | inr e ↦ rw e refl ]

pub finalize-result : (d : Disk) (r : Result Unit) → (finalize_sink d r).0 ≡ r
unfolding finalize_sink
finalize-result d r = elim (Bool-cases d.has_sink) [ inl e ↦ rw e refl | inr e ↦ rw e refl ]

finalize-Keeps : (d : Disk) (r : Result Unit) → Keeps d.dest (finalize_sink d r)
finalize-Keeps d r = inl (finalize-dest d r)

if-Keeps :
    (b : Bool) (o : Option Bytes) (x y : Ended)
    → Keeps o x
    → Keeps o y
    → Keeps o (if b then x else y)
if-Keeps true o x y h k = h
if-Keeps false o x y h k = k

finish_rename-Keeps : (fails : Bool) (d : Disk) → Keeps d.dest (finish_rename fails d)
finish_rename-Keeps true d = finalize-Keeps d _
finish_rename-Keeps false d = inr (finalize-result (renamed d) (ok tt))

finish_body-Keeps :
    (faults : Faults) (expected : Option ℕ) (r : Result ℕ × Disk)
    → Keeps r.1.dest (finish_body faults expected r)
finish_body-Keeps faults expected (err e, d) = finalize-Keeps d _
finish_body-Keeps faults expected (ok n, d) =
    if-Keeps (differs expected n) d.dest _ _ (finalize-Keeps d _) (
      if-Keeps faults.on_flush d.dest _ _ (finalize-Keeps d _)
        (finish_rename-Keeps faults.on_rename d))

receive-Keeps :
    (faults : Faults) (expected : Option ℕ) (resp : Response) (d : Disk)
    → d.is_same ≡ false
    → Keeps d.dest (receive faults expected resp d)
unfolding receive
receive-Keeps faults expected resp d h =
    if-Keeps (is_success resp.status) d.dest _ _
      (subst
        (λ o. Keeps o (finish_body faults expected (write_items expected (items_of resp.body) 0 d)))
        ((write_items-IsApart expected (items_of resp.body) 0 d).1 h)
        (finish_body-Keeps faults expected (write_items expected (items_of resp.body) 0 d)))
      (finalize-Keeps d _)

-- The same for a disk whose `.part` file has been written to.
receive-truncate :
    (faults : Faults) (resp : Response) (d : Disk)
    → d.is_same ≡ false
    → Keeps d.dest (receive faults none resp (truncate d))
receive-truncate faults resp d h =
    subst (λ o. Keeps o (receive faults none resp (truncate d)))
      ((set_part-IsApart (some []) d).1 h) (receive-Keeps faults none resp (truncate d) h)

discard-Keeps :
    (d : Disk) (r : Result Unit)
    → d.is_same ≡ false
    → Keeps d.dest (finalize_sink (set_part none d) r)
discard-Keeps d r h = inl (finalize-dest (set_part none d) r ∙ (set_part-IsApart none d).1 h)

with_length-Keeps :
    (faults : Faults) (a b : ℕ) (total : Option ℕ) (resp : Response) (d : Disk)
    → d.is_same ≡ false
    → Keeps d.dest (with_length faults a b total resp d)
with_length-Keeps faults a b none resp d h = finalize-Keeps d _
with_length-Keeps faults a b (some total) resp d h =
    if-Keeps (b + 1 == total) d.dest _ _ (receive-Keeps faults (some (b - a + 1)) resp d h)
      (finalize-Keeps d _)

with_range-Keeps :
    (faults : Faults) (offset : ℕ) (r : Result ContentRange) (resp : Response) (d : Disk)
    → d.is_same ≡ false
    → Keeps d.dest (with_range faults offset r resp d)
with_range-Keeps faults offset (err e) resp d h = finalize-Keeps d _
with_range-Keeps faults offset (ok (unsatisfied total)) resp d h = finalize-Keeps d _
with_range-Keeps faults offset (ok (bytes_range a b total)) resp d h =
    if-Keeps (a == offset) d.dest _ _
      (if-Keeps (leb (2 ^ 64) (b + 1)) d.dest _ _ (finalize-Keeps d _)
        (with_length-Keeps faults a b total resp d h))
      (finalize-Keeps d _)

respond-Keeps :
    (faults : Faults) (offset : ℕ) (resp : Response) (d : Disk)
    → d.is_same ≡ false
    → Keeps d.dest (respond faults offset resp d)
unfolding respond
respond-Keeps faults offset resp d h =
    if-Keeps (offset == 0) d.dest _ _
      (if-Keeps (resp.status == 206) d.dest _ _ (finalize-Keeps d _)
        (receive-Keeps faults none resp d h))
      (if-Keeps (resp.status == 200) d.dest _ _
        (if-Keeps faults.on_reopen d.dest _ _ (finalize-Keeps d _)
          (receive-truncate faults resp d h))
        (if-Keeps (resp.status == 206) d.dest _ _ (with_range-Keeps faults offset _ resp d h) (
          if-Keeps (resp.status == 416) d.dest _ _
            (if-Keeps (is_complete offset (content_range resp.content_range_field)) d.dest _ _
              (finish_rename-Keeps faults.on_rename d) (discard-Keeps d _ h))
            (if-Keeps (is_success resp.status) d.dest _ _ (finalize-Keeps d _)
              (finalize-Keeps d _)))))

abbrev pub KeepsAll : Option Bytes → Option Ended → Type 0
KeepsAll old none = Unit
KeepsAll old (some e) = Keeps old e

opened-IsApart : (offset : ℕ) (d : Disk) → IsApart d (opened offset d)
opened-IsApart offset d = elim (Bool-cases (offset == 0)) [
  | inl e ↦ rw e (set_part-IsApart (some []) d)
  | inr e ↦ rw e (refl, λ _. refl)
]

after_follow-Keeps :
    (faults : Faults) (offset : ℕ) (f : Followed) (d : Disk)
    → d.is_same ≡ false
    → KeepsAll d.dest (after_follow faults offset f d)
after_follow-Keeps faults offset waits d h = tt
after_follow-Keeps faults offset (failed e) d h = finalize-Keeps d _
after_follow-Keeps faults offset (got r) d h = respond-Keeps faults offset r d h

if-KeepsAll :
    (b : Bool) (o : Option Bytes) (x y : Option Ended)
    → KeepsAll o x
    → KeepsAll o y
    → KeepsAll o (if b then x else y)
if-KeepsAll true o x y h k = h
if-KeepsAll false o x y h k = k

-- When the `.part` file is not the destination itself: whatever the server answers and whichever
-- calls of the file system and of the sink fail, when a download has ended, the destination is as
-- it was before, or the download has succeeded.
pub download_resource-KeepsAll :
    (join : Text → Text → Option (Text × Text)) (faults : Faults) (resume : Bool) (hops : List Hop)
    (url : Text) (d : Disk)
    → d.is_same ≡ false
    → KeepsAll d.dest (download_resource join faults resume hops url d)
unfolding download_resource
download_resource-KeepsAll join faults resume hops url d h =
    let offset = resume_offset resume d.part in
    let o = opened-IsApart offset d in
    if-KeepsAll faults.on_create_dir d.dest _ _ (finalize-Keeps d _) (
      if-KeepsAll faults.on_open d.dest _ _ (finalize-Keeps d _) (
        subst
          (λ o.
            KeepsAll o (after_follow faults offset (follow join hops url 0).0 (opened offset d)))
          (o.1 h)
          (after_follow-Keeps faults offset (follow join hops url 0).0 (opened offset d)
            (o.0 ∙ h))))
