-- ===== src/Web/Reply.antt =====
-- `return_result` and `return_error` of `Project 3 - Multithreaded Web Server/util.c`. What the
-- system calls return is an argument; a reply says what reached the client.
pub mod Delivery
use operating_systems.Common.{
  ℕ, zero, suc, ◌+◌, ◌%◌, ◌^◌, ◌≤◌, ◌<◌, ◌≡◌, refl, ap, ◌∙◌, ◌≢◌, Bool, true, false, ◌&&◌, Option,
  none, some, List, [], ◌∷◌, ◌++◌, append-nil, append_assoc, arith, ltb, ◌==◌, if◌then◌else◌,
  length, take, All, All-append, All-imp,
}
use operating_systems.CText.{Bytes, codes}
use operating_systems.Numbers.{format_int, decimal, is_digit, decimal-digits}

-- The results of the calls on one connection. `write` returns -1 (`none`) or the number of bytes it
-- took; a failing `fflush` may have sent the first `flushed` bytes of the header.
pub record Io : Type 0 where
  pub fdopen_ok : Bool
  pub fprintf_ok : Bool
  pub fflush_ok : Bool
  pub flushed : ℕ
  pub written : Option ℕ

-- The code that is returned, without its sign; the bytes sent; how often the descriptor is closed,
-- by `close` or `fclose`.
pub record Reply : Type 0 where
  pub code : ℕ
  pub sent : Bytes
  pub closes : ℕ

-- The formats of the two calls of `fprintf`.
unfoldable pub result_header : Bytes → ℕ → Bytes
result_header content_type numbytes =
    codes "HTTP/1.0 200 OK\nContent-Type: "
    ++ (content_type
        ++ (codes "\nContent-Length: " ++ (format_int numbytes ++ codes "\nConnection: Close\n\n")))

unfoldable pub error_header : ℕ → Bytes
error_header numbytes =
    codes "HTTP/1.0 404 Not Found\nContent-Length: "
    ++ (format_int numbytes ++ codes "\nConnection: Close\n\n")

-- The calls that the two functions share: open, print, flush, write and close.
unfoldable pub reply : Io → Bytes → Bytes → Reply
reply io header body =
    if io.fdopen_ok
    then if io.fprintf_ok
      then if io.fflush_ok
        then elim io.written [
          | none ↦ record { code = 1; sent = header; closes = 1 }
          | some n ↦ record { code = 0; sent = header ++ take n body; closes = 1 }
        ]
        else record { code = 2; sent = take io.flushed header; closes = 1 }
      else record { code = 3; sent = []; closes = 1 }
    else record { code = 4; sent = []; closes = 1 }

-- `numbytes` is an `int`; `worker` passes a `size_t` whose `int` is not negative, since `addIntoCache`
-- has crashed otherwise.
unfoldable pub return_result : Io → Bytes → Bytes → ℕ → Reply
unfolding reply result_header
return_result io content_type buf numbytes =
    reply io (result_header content_type numbytes) (take (numbytes % 2 ^ 32) buf)

unfoldable pub return_error : Io → Bytes → Reply
unfolding reply error_header
return_error io buf = reply io (error_header (length buf)) buf

-- What a client reads as the body: the bytes behind the first empty line.
unfoldable pub after_blank : Bytes → Bytes
after_blank [] = []
after_blank (c ∷ []) = []
after_blank (c ∷ d ∷ s) = if c == 10 && d == 10 then s else after_blank (d ∷ s)
