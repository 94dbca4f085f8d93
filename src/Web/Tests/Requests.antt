-- ===== src/Web/Tests/Requests.antt =====
-- Requests, replies, content types, the command line and the service at concrete inputs.
use operating_systems.Common.{
  ℕ, ◌+◌, ◌^◌, ◌≤◌, ◌<◌, ◌≡◌, refl, true, some, List, [], ◌∷◌, ◌++◌, arith, length, take,
}
use operating_systems.CText.{
  Bytes, fgets, fgets_line, codes, has_char, contains, is_space_or_newline, until_nul, str_eq,
  starts_with,
}
use operating_systems.CText.Words.{IsWord}
use operating_systems.Web.Request.{
  make_argv, parsed, rejected, get_request, check_argv, check_strings,
}
use operating_systems.Web.Request.Safety.{
  IsSafe, get_request-IsSafe, get_request-accepts, request_line,
}
use operating_systems.Web.Content.{get_content_type, get_content_type-extension}
use operating_systems.Web.Reply.{Io, return_result, return_error, after_blank}
use operating_systems.Web.Reply.Delivery.{return_delivers}
use operating_systems.Web.Cache.{init_cache}
use operating_systems.Web.Cache.Entries.{init_cache-Repr}
use operating_systems.Web.Config.{outside, startup, started, usage}
use operating_systems.Web.Config.Checks.{InLimits, startup-decimal}
use operating_systems.Web.Worker.{load, answer_load, serve}
use operating_systems.Web.Worker.Log.{serve-log_fits}
use operating_systems.Web.Worker.Coherence.{SizesFit, Coherent, serve-load}
use operating_systems.Numbers.{atoi, decimal}
use operating_systems.Web.Tests.Data.{root, page, small_disk, small_config, page_request}

abbrev get_line : Bytes
get_line = codes "GET /a.html HTTP/1.0\nHost: x\n"

get_page : get_request true true true get_line ≡ parsed page
unfolding get_request fgets fgets_line check_argv make_argv check_strings until_nul
    is_space_or_newline str_eq contains starts_with
get_page = refl

climbing_rejected : get_request true true true (codes "GET /../x HTTP/1.0\n") ≡ rejected 4
unfolding get_request fgets fgets_line check_argv make_argv check_strings until_nul
    is_space_or_newline str_eq contains starts_with
climbing_rejected = refl

get_request-IsSafe_example : IsSafe page
get_request-IsSafe_example = get_request-IsSafe true true true get_line page get_page

page-IsWord : IsWord is_space_or_newline page
unfolding is_space_or_newline
page-IsWord = ((λ e. cc), (refl, (refl, (refl, (refl, (refl, (refl, (refl, tt))))))))

get_request-accepts_example :
    get_request true true true (request_line page ++ codes "Host: x\n") ≡ parsed page
unfolding contains starts_with
get_request-accepts_example =
    get_request-accepts page (codes "Host: x\n") page-IsWord (omega arith) (omega arith) refl refl

get_content_type-extension_example :
    (get_content_type (codes "/a.b" ++ (b'.' ∷ codes "gif")) ≡ codes "image/gif")
    × (get_content_type (codes "gif") ≡ codes "text/plain")
    × ((r : Bytes) → length (get_content_type r) + 1 ≤ 11)
unfolding has_char str_eq
get_content_type-extension_example = get_content_type-extension (codes "/a.b") (codes "gif") refl

abbrev good_io : Io
good_io = record {
  fdopen_ok = true;
  fprintf_ok = true;
  fflush_ok = true;
  flushed = 0;
  written = some 2;
}

return_delivers_example :
    ((return_result good_io (codes "text/html") (codes "hi") 2).closes ≡ 1)
    × ((return_error good_io (codes "no")).closes ≡ 1)
    × ((return_result good_io (codes "text/html") (codes "hi") 2).code ≡ 0
        → (n : ℕ) × (good_io.written ≡ some n)
          × (after_blank (return_result good_io (codes "text/html") (codes "hi") 2).sent
              ≡ take n (codes "hi")))
    × ((return_error good_io (codes "no")).code ≡ 0
        → (n : ℕ) × (good_io.written ≡ some n)
          × (after_blank (return_error good_io (codes "no")).sent ≡ take n (codes "no")))
return_delivers_example =
    return_delivers good_io (codes "text/html") (codes "hi") (codes "no") 2 (omega arith)

abbrev command_line : List Bytes
command_line =
    codes "web_server"
    ∷ codes "2000"
    ∷ root
    ∷ codes "1"
    ∷ codes "1"
    ∷ codes "0"
    ∷ codes "1"
    ∷ codes "1"
    ∷ []

starts : startup (λ p. true) command_line ≡ started small_config
unfolding startup outside atoi
starts = refl

too_few : startup (λ p. true) (codes "web_server" ∷ []) ≡ usage
unfolding startup
too_few = refl

pub small_config-InLimits : InLimits small_config
small_config-InLimits = omega arith

startup-decimal_example :
    startup
      (λ p. true)
      (codes "web_server"
        ∷ decimal 2000
        ∷ root
        ∷ decimal 1
        ∷ decimal 1
        ∷ codes "0"
        ∷ decimal 1
        ∷ decimal 1
        ∷ [])
    ≡ started small_config
startup-decimal_example =
    startup-decimal (λ p. true) (codes "web_server") (codes "0") small_config small_config-InLimits
      refl

empty-Coherent : Coherent small_disk root (init_cache 1)
empty-Coherent = record { list = []; valid = init_cache-Repr 1 (omega arith); fresh = tt }

pub small_sizes_fit : SizesFit small_disk root
small_sizes_fit f n e = ground arith

serve-load_example :
    ((serve small_disk root 0 1 40 (init_cache 1) page_request).answer
      ≡ answer_load page (load small_disk root page))
    × Coherent small_disk root (serve small_disk root 0 1 40 (init_cache 1) page_request).cache
serve-load_example =
    serve-load small_disk root 0 1 40 (init_cache 1) page_request small_sizes_fit empty-Coherent

small_sizes : (f : Bytes) (n : ℕ) → small_disk.stat_size f ≡ some n → n < 2 ^ 64
small_sizes f n e = ground arith

serve-log_fits_example :
    length (serve small_disk root 0 1 40 (init_cache 1) page_request).log < 2048
serve-log_fits_example =
    serve-log_fits small_disk root small_sizes 0 1 40 (init_cache 1) page_request empty-Coherent
      (omega arith)
