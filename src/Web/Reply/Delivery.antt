-- ===== src/Web/Reply/Delivery.antt =====
-- What a client receives, and that every path closes the connection.
use operating_systems.Common.{
  ℕ, ◌-◌, ◌%◌, ◌^◌, ◌≡◌, refl, ap, ◌∙◌, ◌≢◌, inl, inr, true, some, [], ◌∷◌, ◌++◌, append_assoc,
  arith, ltb, length, take, All, All-append, All-imp, Bool-cases, Option-cases,
}
use operating_systems.CText.{Bytes, codes}
use operating_systems.Numbers.{format_int, decimal, is_digit, decimal-digits}
use operating_systems.Web.Reply.{
  Io, result_header, error_header, reply, return_result, return_error, after_blank,
}

after_blank_line :
    (line : Bytes) (c : ℕ) (rest : Bytes)
    → All (λ x. x ≢ 10) line
    → c ≢ 10
    → after_blank (line ++ (10 ∷ c ∷ rest)) ≡ after_blank (c ∷ rest)
unfolding after_blank
after_blank_line [] c rest h k = ground arith
after_blank_line (x ∷ []) c rest h k = ground arith
after_blank_line (x ∷ y ∷ line) c rest h k =
    ground (arith, after_blank_line (y ∷ line) c rest h.1 k)

format_int_line : (n : ℕ) → All (λ c. c ≢ 10) (format_int n)
unfolding format_int
format_int_line n = elim (Bool-cases (ltb (n % 2 ^ 32) (2 ^ 31))) [
  | inl e ↦ rw e (digits_line (n % 2 ^ 32))
  | inr e ↦ rw e ((λ e. absurd (omega arith)), digits_line (2 ^ 32 - n % 2 ^ 32))
]
  where
    digits_line : (k : ℕ) → All (λ c. c ≢ 10) (decimal k)
    digits_line k =
        All-imp (λ c. is_digit c ≡ true) (λ c. c ≢ 10) (decimal k)
          (λ c e. unfold is_digit in ground arith) (decimal-digits k).0

-- Behind the length every header has the same end.
after_blank_end :
    (line body : Bytes)
    → All (λ c. c ≢ 10) line
    → after_blank (line ++ (codes "\nConnection: Close\n\n" ++ body)) ≡ body
after_blank_end line body h =
    after_blank_line line b'C' _ h (omega arith) ∙ (unfold after_blank in refl)

length_line :
    (body : Bytes) (n : ℕ)
    → after_blank
        (codes "Content-Length: " ++ (format_int n ++ (codes "\nConnection: Close\n\n" ++ body)))
      ≡ body
length_line body n = after_blank_end (codes "Content-Length: " ++ format_int n) body (
    All-append (λ c. c ≢ 10) (codes "Content-Length: ") (format_int n) (omega arith)
      (format_int_line n))

-- The body is what stands behind the first empty line of a result.
after_blank-result_header :
    (content_type body : Bytes) (n : ℕ)
    → All (λ c. c ≢ 10) content_type
    → after_blank (result_header content_type n ++ body) ≡ body
unfolding result_header
after_blank-result_header content_type body n h = simp append_assoc (
    after_blank_line (codes "HTTP/1.0 200 OK") b'C' _ (omega arith) (omega arith)
    ∙ after_blank_line (codes "Content-Type: " ++ content_type) b'C' _
        (All-append (λ c. c ≢ 10) (codes "Content-Type: ") content_type (omega arith) h)
        (omega arith)
    ∙ length_line body n)

after_blank-error_header : (body : Bytes) (n : ℕ) → after_blank (error_header n ++ body) ≡ body
unfolding error_header
after_blank-error_header body n = simp append_assoc (
    after_blank_line (codes "HTTP/1.0 404 Not Found") b'C' _ (omega arith) (omega arith)
    ∙ length_line body n)

pub closes-reply : (io : Io) (header body : Bytes) → (reply io header body).closes ≡ 1
unfolding reply
closes-reply io header body = ground arith

reply_sent :
    (io : Io) (header body : Bytes)
    → (reply io header body).code ≡ 0
    → (n : ℕ) × (io.written ≡ some n) × ((reply io header body).sent ≡ header ++ take n body)
unfolding reply
reply_sent io header body h = elim (Option-cases io.written) [
  | inl e ↦ absurd (ground arith)
  | inr (n, e) ↦ (n, e, ground arith)
]

-- Every path through `return_result` and `return_error` closes the descriptor exactly once; with
-- the code 0 a client that reads up to the first empty line gets as many of the `numbytes` bytes (as an `int`) of
-- the buffer, or of the error text, as the one call of `write` took, for any content type that has
-- no newline in it.
pub return_delivers :
    (io : Io) (content_type buf error : Bytes) (numbytes : ℕ)
    → All (λ c. c ≢ 10) content_type
    → ((return_result io content_type buf numbytes).closes ≡ 1)
      × ((return_error io error).closes ≡ 1)
      × ((return_result io content_type buf numbytes).code ≡ 0
          → (n : ℕ) × (io.written ≡ some n)
            × (after_blank (return_result io content_type buf numbytes).sent
                ≡ take n (take (numbytes % 2 ^ 32) buf)))
      × ((return_error io error).code ≡ 0
          → (n : ℕ) × (io.written ≡ some n)
            × (after_blank (return_error io error).sent ≡ take n error))
unfolding return_result return_error
return_delivers io content_type buf error numbytes h = (
  closes-reply io _ _,
  closes-reply io _ _,
  (λ ok.
      let (n, w, e) =
        reply_sent io (result_header content_type numbytes) (take (numbytes % 2 ^ 32) buf) ok in
      (n, w, ap after_blank e ∙ after_blank-result_header content_type _ numbytes h)),
  (λ ok.
      let (n, w, e) = reply_sent io (error_header (length error)) error ok in
      (n, w, ap after_blank e ∙ after_blank-error_header _ (length error))),
)
