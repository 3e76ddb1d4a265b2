-- ===== src/Core/Encoding/Framing.antt =====
-- The framing helpers of internal/core/value.go read back: a reader finds where each part ends.
use mathlib.Core.List.{append_assoc}
use datagit.Prelude.{
  ℕ, ◌^◌, ◌<◌, ◌≡◌, ◌∙◌, refl, sym, ap, ◌++◌, Bytes, length, take, drop, take-append, drop-append,
}
use datagit.Core.Encoding.BigEndian.{
  big_endian, read_big_endian, length-big_endian, read-big_endian,
}
use datagit.Core.Encoding.{append_uint32, append_uint64, append_len_prefixed}

-- Two texts of one length, each before a rest.
pub append_eq : (a b r s : Bytes) → length a ≡ length b → a ++ r ≡ b ++ s → (a ≡ b) × (r ≡ s)
append_eq a b r s same h = (
  sym (take-append a r (length b) same) ∙ ap (take (length b)) h ∙ take-append b s (length b) refl,
  sym (drop-append a r (length b) same) ∙ ap (drop (length b)) h ∙ drop-append b s (length b) refl,
)

pub big_endian_eq :
    (w m n : ℕ) (r s : Bytes)
    → m < 256 ^ w
    → n < 256 ^ w
    → big_endian w m ++ r ≡ big_endian w n ++ s
    → (m ≡ n) × (r ≡ s)
big_endian_eq w m n r s hm hn h =
    let (low, rest) =
      append_eq (big_endian w m) (big_endian w n) r s
        (length-big_endian w m ∙ sym (length-big_endian w n)) h in
    (sym (read-big_endian w m hm) ∙ ap read_big_endian low ∙ read-big_endian w n hn, rest)

-- A length and the text of that length.
unfoldable pub framed : Bytes → Bytes → Bytes
framed s rest = big_endian 4 (length s) ++ (s ++ rest)

pub framed_eq :
    (s t a b : Bytes)
    → length s < 2 ^ 32
    → length t < 2 ^ 32
    → framed s a ≡ framed t b
    → (s ≡ t) × (a ≡ b)
unfolding framed
framed_eq s t a b hs ht h =
    let (same, rest) = big_endian_eq 4 (length s) (length t) (s ++ a) (t ++ b) hs ht h in
    append_eq s t a b same rest

pub append_len_prefixed-framed :
    (dst s rest : Bytes) → append_len_prefixed dst s ++ rest ≡ dst ++ framed s rest
unfolding append_len_prefixed framed
append_len_prefixed-framed dst s rest = simp append_assoc

pub append_uint64-append :
    (dst : Bytes) (n : ℕ) (rest : Bytes)
    → append_uint64 dst n ++ rest ≡ dst ++ (big_endian 8 n ++ rest)
unfolding append_uint64
append_uint64-append dst n rest = append_assoc dst (big_endian 8 n) rest

pub append_uint32-append :
    (dst : Bytes) (n : ℕ) (rest : Bytes)
    → append_uint32 dst n ++ rest ≡ dst ++ (big_endian 4 n ++ rest)
unfolding append_uint32
append_uint32-append dst n rest = append_assoc dst (big_endian 4 n) rest
