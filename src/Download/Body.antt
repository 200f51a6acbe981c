-- ===== src/Download/Body.antt =====
-- What the body leaves on the disk.
use rong.Base.{
  ℕ, ◌+◌, ◌≡◌, ◌∙◌, refl, ap, sym, Bool, true, false, Option, none, some, List, [], ◌∷◌, ◌++◌,
  append-nil, append_assoc, length, length-append, arith, if◌then◌else◌, nat_eq,
}
use rong.Text.{Text}
use rong.Download.{
  Bytes, DownloadError, Result, ok, err, Piece, BodyItem, piece, broken, Disk, appended,
  forward_with, forward, check_partial_body_len, write_all, take_piece, go_on, write_items,
  set_part,
}

-- All bytes of the pieces.
abbrev pub item_bytes : List BodyItem → Bytes
item_bytes [] = []
item_bytes (broken e ∷ items) = item_bytes items
item_bytes (piece p ∷ items) = p.bytes ++ item_bytes items

forward-same :
    (p : Piece) (d : Disk)
    → ((forward p d).part ≡ d.part)
      × ((forward p d).dest ≡ d.dest)
      × ((forward p d).is_same ≡ d.is_same)
unfolding forward
forward-same p d = by_sink d.has_sink p.sink_error
  where
    by_sink :
        (b : Bool) (e : Option Text)
        → ((if b then forward_with e p.bytes d else d).part ≡ d.part)
          × ((if b then forward_with e p.bytes d else d).dest ≡ d.dest)
          × ((if b then forward_with e p.bytes d else d).is_same ≡ d.is_same)
    by_sink false e = (refl, refl, refl)
    by_sink true none = (refl, refl, refl)
    by_sink true (some x) = (refl, refl, refl)

-- The destination is left alone when it is a file of its own, and stays one.
abbrev pub IsApart : Disk → Disk → Type 0
IsApart d e = (e.is_same ≡ d.is_same) × (d.is_same ≡ false → e.dest ≡ d.dest)

pub set_part-IsApart : (o : Option Bytes) (d : Disk) → IsApart d (set_part o d)
set_part-IsApart o d = (refl, λ h. rw h refl)

IsApart-trans : (c d e : Disk) → IsApart c d → IsApart d e → IsApart c e
IsApart-trans c d e h k = (k.0 ∙ h.0, λ f. k.1 (h.0 ∙ f) ∙ h.1 f)

take_piece-IsApart :
    (o : Option DownloadError) (p : Piece) (d : Disk) → IsApart d (take_piece o p d).1
take_piece-IsApart (some e) p d = (refl, λ _. refl)
take_piece-IsApart none p d = by_fault p.write_fault
  where
    forwarded : IsApart d (forward p d)
    forwarded = let h = forward-same p d in (h.2, λ _. h.1)

    by_fault : (f : Option Bytes) → IsApart d (write_all f p.bytes (forward p d)).1
    by_fault none =
        IsApart-trans d (forward p d) (set_part (appended (forward p d).part p.bytes) (forward p d))
          forwarded (set_part-IsApart (appended (forward p d).part p.bytes) (forward p d))
    by_fault (some torn) =
        IsApart-trans d (forward p d) (set_part (appended (forward p d).part torn) (forward p d))
          forwarded (set_part-IsApart (appended (forward p d).part torn) (forward p d))

take_piece-part :
    (o : Option DownloadError) (p : Piece) (d : Disk)
    → (take_piece o p d).0 ≡ ok tt
    → (take_piece o p d).1.part ≡ appended d.part p.bytes
take_piece-part (some e) p d h = absurd (cc)
take_piece-part none p d h = by_fault p.write_fault h
  where
    by_fault :
        (f : Option Bytes)
        → (write_all f p.bytes (forward p d)).0 ≡ ok tt
        → (write_all f p.bytes (forward p d)).1.part ≡ appended d.part p.bytes
    by_fault none h = ap (λ o. appended o p.bytes) (forward-same p d).0
    by_fault (some torn) h = absurd (cc)

go_on-IsApart :
    (now : Result Unit × Disk) (rest : Result ℕ × Disk) (d : Disk)
    → IsApart d now.1
    → IsApart d rest.1
    → IsApart d (go_on now rest).1
go_on-IsApart (ok u, e) rest d h k = k
go_on-IsApart (err x, e) rest d h k = h

-- The body never touches a destination that is a file of its own.
pub write_items-IsApart :
    (expected : Option ℕ) (items : List BodyItem) (received : ℕ) (d : Disk)
    → IsApart d (write_items expected items received d).1
unfolding write_items
write_items-IsApart expected [] received d = (refl, λ _. refl)
write_items-IsApart expected (broken e ∷ items) received d = (refl, λ _. refl)
write_items-IsApart expected (piece p ∷ items) received d =
    let total = received + length p.bytes in
    let now = take_piece (check_partial_body_len expected total) p d in
    let h = take_piece-IsApart (check_partial_body_len expected total) p d in
    go_on-IsApart now (write_items expected items total now.1) d h (
      IsApart-trans d now.1 (write_items expected items total now.1).1 h
        (write_items-IsApart expected items total now.1))

go_on-ok :
    (now : Result Unit × Disk) (rest : Result ℕ × Disk) (n : ℕ)
    → (go_on now rest).0 ≡ ok n
    → (now.0 ≡ ok tt) × (go_on now rest ≡ rest)
go_on-ok (ok tt, d) rest n h = (refl, refl)
go_on-ok (err e, d) rest n h = absurd (cc)

appended_twice : (o : Option Bytes) (a b : Bytes) → appended (appended o a) b ≡ appended o (a ++ b)
appended_twice none a b = refl
appended_twice (some old) a b = ap some (append_assoc old a b)

-- When the body arrives whole, all of it is behind what the file had, and counted.
pub write_items_ok :
    (expected : Option ℕ) (items : List BodyItem) (received n : ℕ) (d : Disk) (old : Bytes)
    → d.part ≡ some old
    → (write_items expected items received d).0 ≡ ok n
    → ((write_items expected items received d).1.part ≡ some (old ++ item_bytes items))
      × (n ≡ received + length (item_bytes items))
unfolding write_items
write_items_ok expected [] received n d old e h = (e ∙ ap some (sym (append-nil old)), counted h)
  where
    counted : ok received ≡ ok n → n ≡ received + 0
    counted q = let r : received ≡ n = cc in omega (arith, r)
write_items_ok expected (broken x ∷ items) received n d old e h = absurd (cc)
write_items_ok expected (piece p ∷ items) received n d old e h =
    let total = received + length p.bytes in
    let now = take_piece (check_partial_body_len expected total) p d in
    let rest = write_items expected items total now.1 in
    let g = go_on-ok now rest n h in
    let part : now.1.part ≡ some (old ++ p.bytes) =
      take_piece-part (check_partial_body_len expected total) p d g.0
      ∙ ap (λ o. appended o p.bytes) e in
    let k =
      write_items_ok expected items total n now.1 (old ++ p.bytes) part
        (ap (λ r. r.0) (sym g.1) ∙ h) in
    (
      ap (λ r. r.1.part) g.1 ∙ k.0 ∙ ap some (append_assoc old p.bytes (item_bytes items)),
      omega (arith, k.1, length-append p.bytes (item_bytes items)),
    )
