-- ===== src/Auth/Sample.antt =====
-- A library for cpa_first/auth that keeps the promises of Auth/Library.antt, for the tests: an invertible
-- encoding of numbers, texts and claims as text, signed with the secret itself.
use Prim.Native.Char.{Char, code}
use Prim.Native.String.{[] as nil, ◌∷◌}
use xeno_pre_test.Prelude.{
  ℕ, zero, suc, ◌*◌, ◌+◌, ◌<◌, ◌≡◌, refl, ap, Bool, false, ◌==◌, ◌&&◌, ltb, if◌then◌else◌, Option,
  none, some, String, str_eq, eq_refl, arith,
}
use xeno_pre_test.Auth.Library.{Claims, Library}

abbrev pub is_more : Char → Bool
is_more c = code c == 43

abbrev pub put_number : ℕ → String → String
put_number zero rest = "." ∷ rest
put_number (suc n) rest = "+" ∷ put_number n rest

abbrev pub get_number : String → ℕ × String
get_number nil = (0, nil)
get_number (c ∷ s) = let (n, rest) = get_number s in if is_more c then (suc n, rest) else (0, s)

pub get-put_number : (n : ℕ) (rest : String) → get_number (put_number n rest) ≡ (n, rest)
get-put_number zero rest = refl
get-put_number (suc n) rest = rw (get-put_number n rest) refl

abbrev pub put_text : String → String → String
put_text nil rest = "." ∷ rest
put_text (c ∷ s) rest = "+" ∷ c ∷ put_text s rest

abbrev pub get_text : String → String × String
get_text nil = (nil, nil)
get_text (c ∷ nil) = (nil, nil)
get_text (c ∷ d ∷ s) =
    let (t, rest) = get_text s in if is_more c then (d ∷ t, rest) else (nil, d ∷ s)

pub get-put_text : (t rest : String) → get_text (put_text t rest) ≡ (t, rest)
get-put_text nil nil = refl
get-put_text nil (c ∷ rest) = refl
get-put_text (c ∷ t) rest = rw (get-put_text t rest) refl

abbrev pub put_option : Option String → String → String
put_option none rest = put_number 0 rest
put_option (some t) rest = put_number 1 (put_text t rest)

abbrev pub get_option : String → Option String × String
get_option s =
    let (n, rest) = get_number s in
    let (t, end) = get_text rest in if n == 0 then (none, rest) else (some t, end)

pub get-put_option :
    (o : Option String) (rest : String) → get_option (put_option o rest) ≡ (o, rest)
get-put_option none rest = refl
get-put_option (some t) rest = rw (get-put_text t rest) refl

abbrev pub encode : String → Claims → String
encode secret c = put_text secret (
    put_text c.sub (
      put_text c.kind
        (put_option c.role (put_option c.jti (put_number c.iat (put_number c.exp nil))))))

-- Refuses another secret, and a token before its issue or after its end.
abbrev pub decode : String → ℕ → String → Option Claims
decode secret now token =
    let (key, s1) = get_text token in
    let (sub, s2) = get_text s1 in
    let (kind, s3) = get_text s2 in
    let (role, s4) = get_option s3 in
    let (jti, s5) = get_option s4 in
    let (iat, s6) = get_number s5 in
    let (exp, s7) = get_number s6 in
    if str_eq key secret && ltb now (exp * 1_000_000) && ltb (iat * 1_000_000) (now + 1)
    then some (record { sub = sub; role = role; kind = kind; iat = iat; exp = exp; jti = jti })
    else none

pub decode-encode :
    (secret : String) (now : ℕ) (c : Claims)
    → now < c.exp * 1_000_000
    → c.iat * 1_000_000 < now + 1
    → decode secret now (encode secret c) ≡ some c
decode-encode secret now c h k =
    let s6 : String = put_number c.exp nil in
    let s5 : String = put_number c.iat s6 in
    let s4 : String = put_option c.jti s5 in
    let s3 : String = put_option c.role s4 in
    let s2 : String = put_text c.kind s3 in
    let s1 : String = put_text c.sub s2 in
    rw
      (
        get-put_text secret s1,
        get-put_text c.sub s2,
        get-put_text c.kind s3,
        get-put_option c.role s4,
        get-put_option c.jti s5,
        get-put_number c.iat s6,
        get-put_number c.exp nil,
      )
      (ground (arith, eq_refl secret, h, k))

-- `str(u)` as a row of marks.
abbrev pub parse_number : String → Option ℕ
parse_number s = let (n, rest) = get_number s in some n

abbrev pub sample : Library
sample = record {
  strip = λ s. s;
  lower = λ s. s;
  sha256 = λ s. s;
  argon_hash = λ salt password. password;
  argon_verify = λ hash password. str_eq hash password;
  argon_check_needs_rehash = λ hash. some false;
  argon_verify-hash = λ salt password. eq_refl password;
  jwt_encode = encode;
  jwt_decode = decode;
  jwt_decode-encode = decode-encode;
  uuid_text = λ u. put_number u nil;
  uuid_parse = parse_number;
  uuid_parse-text = λ u. ap (λ r. some r.0) (get-put_number u nil);
}
