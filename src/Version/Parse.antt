-- ===== src/Version/Parse.antt =====
-- What `New` of version/version.go reads.
use elastic_agent_libs.Prelude.{
  ℕ, Bytes, split, join, join-free, split-join, contains-join, contains, unsigned, unsigned-free,
  atoi-unsigned, AllFree, is_digit, List, [], ◌∷◌, some, ok, ◌≡◌, refl, arith, false,
}
use elastic_agent_libs.Version.{V, new, parse_numbers}

-- Three numbers in decimal, with the texts that they are written as.
pub record Numbers : Type 0 where
  pub text_a : Bytes
  pub text_b : Bytes
  pub text_c : Bytes
  pub a : ℕ
  pub b : ℕ
  pub c : ℕ
  pub reads_a : unsigned text_a ≡ some a
  pub reads_b : unsigned text_b ≡ some b
  pub reads_c : unsigned text_c ≡ some c

abbrev pub dotted : Numbers → Bytes
dotted n = join b'.' (n.text_a ∷ n.text_b ∷ n.text_c ∷ [])

abbrev pub version_of : Numbers → Bytes → Bytes → V
version_of n version meta = record {
  version = version;
  major = n.a;
  minor = n.b;
  bugfix = n.c;
  meta = meta;
}

numbers-AllFree :
    (n : Numbers) (sep : ℕ)
    → is_digit sep ≡ false
    → AllFree sep (n.text_a ∷ n.text_b ∷ n.text_c ∷ [])
numbers-AllFree n sep h = (
  unsigned-free n.text_a sep h n.reads_a,
  (unsigned-free n.text_b sep h n.reads_b, (unsigned-free n.text_c sep h n.reads_c, tt)),
)

dotted-free : (n : Numbers) → contains b'-' (dotted n) ≡ false
dotted-free n =
    join-free b'-' b'.' (n.text_a ∷ n.text_b ∷ n.text_c ∷ []) refl (numbers-AllFree n b'-' refl)

parse_numbers-dotted :
    (n : Numbers) (version meta : Bytes)
    → parse_numbers version meta (split b'.' (dotted n)) ≡ ok (version_of n version meta)
unfolding parse_numbers
parse_numbers-dotted n version meta =
    rw (split-join b'.' n.text_a (n.text_b ∷ n.text_c ∷ []) (numbers-AllFree n b'.' refl)) (
      ground (
        arith,
        atoi-unsigned n.text_a n.reads_a,
        atoi-unsigned n.text_b n.reads_b,
        atoi-unsigned n.text_c n.reads_c,
      ))

-- `New` reads `a.b.c`, three numbers in decimal that fit an `int`, as the version with these numbers
-- and no meta part.
pub new-dotted : (n : Numbers) → new (dotted n) ≡ ok (version_of n (dotted n) [])
unfolding new
new-dotted n = rw (dotted-free n) (parse_numbers-dotted n (dotted n) [])

-- `New` reads `a.b.c-meta-...` as the version with these numbers and with the text between the first
-- two dashes as its meta part: what stands behind a second dash is dropped.
pub new-meta :
    (n : Numbers) (meta : Bytes) (rest : List Bytes)
    → AllFree b'-' (meta ∷ rest)
    → new (join b'-' (dotted n ∷ meta ∷ rest))
      ≡ ok (version_of n (join b'-' (dotted n ∷ meta ∷ rest)) meta)
unfolding new
new-meta n meta rest free =
    let version = join b'-' (dotted n ∷ meta ∷ rest) in
    rw (contains-join b'-' (dotted n) meta rest) (
      rw (split-join b'-' (dotted n) (meta ∷ rest) (dotted-free n, free))
        (parse_numbers-dotted n version meta))
