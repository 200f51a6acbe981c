-- ===== src/Download/Tests.antt =====
-- Five bytes of which three are there already, and a server that redirects for ever.
use rong.Base.{
  ◌≤◌, ◌≡◌, refl, true, false, Option, none, some, [], ◌∷◌, replicate, length, arith, codes,
}
use rong.Text.{Text}
use rong.Download.{
  ok, err, http_status, too_many_redirects, missing, text, empty, small, Response, responded,
  Faults, Disk, wrote, closed, finalize_sink, is_success, is_download_redirect, content_range,
  forward, check_partial_body_len, write_items, receive, respond, resume_offset,
}
use rong.Download.Range.{parse_content_range}
use rong.Download.Follow.{follow, redirect_target, length-follow-le, failed, download_resource}
use rong.Download.Keeps.{KeepsAll, download_resource-KeepsAll}
use rong.Download.Success.{IsWhole, respond-IsWhole}

abbrev join : Text → Text → Option (Text × Text)
join url next = some (codes "https", next)

abbrev no_faults : Faults
no_faults = record {
  on_create_dir = false;
  on_open = false;
  on_reopen = false;
  on_flush = false;
  on_rename = false;
}

abbrev rest : Response
rest = record {
  status = 206;
  content_range_field = text (codes "bytes 3-4/5");
  location = missing;
  body = small (record { bytes = codes "lo"; sink_error = none; write_fault = none });
}

abbrev disk : Disk
disk = record {
  is_same = false;
  part = some (codes "hel");
  dest = none;
  has_sink = true;
  events = [];
}

whole :
    download_resource join no_faults true (responded rest ∷ []) (codes "https://a/") disk
    ≡ some (
      ok tt,
      record {
        is_same = false;
        part = none;
        dest = some (codes "hello");
        has_sink = false;
        events = wrote (codes "lo") ∷ closed (ok tt) ∷ [];
      },
    )
unfolding download_resource follow respond receive write_items forward check_partial_body_len
    finalize_sink is_success is_download_redirect content_range resume_offset parse_content_range
    rong.Text.trim rong.Text.split_once rong.Text.Number.parse_u64
whole = refl

respond-IsWhole_example :
    IsWhole false
      (codes "hel")
      (codes "lo")
      (content_range (text (codes "bytes 3-4/5")))
      (respond no_faults 3 rest disk)
unfolding respond receive write_items forward check_partial_body_len finalize_sink is_success
    content_range parse_content_range rong.Text.trim rong.Text.split_once rong.Text.Number.parse_u64
respond-IsWhole_example =
    respond-IsWhole no_faults rest disk (codes "hel") refl (omega arith) refl refl

download_resource-KeepsAll_example :
    KeepsAll none
      (download_resource join no_faults true (responded rest ∷ []) (codes "https://a/") disk)
download_resource-KeepsAll_example =
    download_resource-KeepsAll join no_faults true (responded rest ∷ []) (codes "https://a/") disk
      refl

abbrev again : Response
again = record {
  status = 302;
  content_range_field = missing;
  location = text (codes "b");
  body = empty;
}

endless :
    (follow join (replicate 20 (responded again)) (codes "https://a/") 0).0
    ≡ failed too_many_redirects
unfolding follow is_download_redirect redirect_target rong.Text.trim rong.Text.is_empty
endless = refl

length-follow-le_example :
    length (follow join (replicate 20 (responded again)) (codes "https://a/") 0).1 ≤ 11
length-follow-le_example =
    length-follow-le join (replicate 20 (responded again)) (codes "https://a/")

-- A destination that ends in `.part` is lost when the server does not answer with success.
part_dest_lost :
    download_resource join no_faults false
      (responded (record rest { status = 404 }) ∷ [])
      (codes "https://a/")
      (record disk { is_same = true; dest = some (codes "hel"); has_sink = false })
    ≡ some (
      err (http_status 404),
      record { is_same = true; part = some []; dest = some []; has_sink = false; events = [] },
    )
unfolding download_resource follow respond receive finalize_sink is_success is_download_redirect
    resume_offset
part_dest_lost = refl
