-- ===== src/Http/RequestLine.antt =====
-- pkg/protocol/parser.go: the first line of a request that can be sent, and `requestRegex` on it.
use a.Prelude.{
  ℕ, ◌≢◌, ◌≡◌, refl, sym, subst, ◌∙◌, ap, arith, Bool, true, false, not, ◌⊎◌, some, List, [], ◌∷◌,
  ◌++◌, append-nil, All, All-append, Bool-cases, inl, inr,
}
use a.Golang.Slice.{Bytes}
use a.Golang.Split.{Lacks}
use a.Golang.Text.{text, has_prefix, is_digit}
use a.Http.Match.{
  is_white, span_while, at_least_one, methods, match_method, match_version, match_request, white,
  word,
}
use a.Http.Parser.{HttpRequest}
use a.Http.Wire.{IsHeader}

-- The bytes that a match takes pass its test, and the next byte does not.
abbrev pub Passes : (ℕ → Bool) → Bytes → Type 0
Passes p = All (λ c. p c ≡ true)

abbrev pub Stops : (ℕ → Bool) → Bytes → Type 0
Stops p [] = Unit {0}
Stops p (c ∷ rest) = p c ≡ false

span_while-append :
    (p : ℕ → Bool) (taken rest : Bytes)
    → Passes p taken
    → Stops p rest
    → span_while p (taken ++ rest) ≡ (taken, rest)
unfolding span_while
span_while-append p [] [] h k = refl
span_while-append p [] (c ∷ rest) h k = rw k refl
span_while-append p (c ∷ taken) rest h k = rw (h.0, span_while-append p taken rest h.1 k) refl

taken_lem :
    (p : ℕ → Bool) (c : ℕ) (taken rest : Bytes)
    → Passes p (c ∷ taken)
    → Stops p rest
    → at_least_one (span_while p (c ∷ (taken ++ rest))) ≡ some (c ∷ taken, rest)
taken_lem p c taken rest h k = ap at_least_one (span_while-append p (c ∷ taken) rest h k)

last_taken :
    (p : ℕ → Bool) (c : ℕ) (taken : Bytes)
    → Passes p (c ∷ taken)
    → at_least_one (span_while p (c ∷ taken)) ≡ some (c ∷ taken, [])
last_taken p c taken h =
    ap (λ s. at_least_one (span_while p s)) (sym (append-nil (c ∷ taken)))
    ∙ taken_lem p c taken [] h tt

-- A method of the list.
abbrev pub AnyOf : Bytes → List Bytes → Type 0
AnyOf m [] = ⊥
AnyOf m (k ∷ ks) = (m ≡ k) ⊎ AnyOf m ks

match_method_lem :
    (m rest : Bytes) → AnyOf m methods → match_method methods (m ++ rest) ≡ some (m, rest)
unfolding match_method has_prefix
match_method_lem m rest (inl e) = rw e refl
match_method_lem m rest (inr (inl e)) = rw e refl
match_method_lem m rest (inr (inr (inl e))) = rw e refl
match_method_lem m rest (inr (inr (inr (inl e)))) = rw e refl
match_method_lem m rest (inr (inr (inr (inr (inl e))))) = rw e refl
match_method_lem m rest (inr (inr (inr (inr (inr (inl e)))))) = rw e refl
match_method_lem m rest (inr (inr (inr (inr (inr (inr (inl e))))))) = rw e refl
match_method_lem m rest (inr (inr (inr (inr (inr (inr (inr (inl e)))))))) = rw e refl
match_method_lem m rest (inr (inr (inr (inr (inr (inr (inr (inr (inl e))))))))) = rw e refl
match_method_lem m rest (inr (inr (inr (inr (inr (inr (inr (inr (inr none_left))))))))) =
    elim none_left [ ]

-- A request that can be sent; its version is two numbers of decimal digits.
pub record IsRequest (req : HttpRequest) : Type 0 where
  pub method : AnyOf req.method methods
  pub path_head : ℕ
  pub path_rest : Bytes
  pub path : req.path ≡ path_head ∷ path_rest
  pub visible : Passes (λ c. not (is_white c)) (path_head ∷ path_rest)
  pub major_head : ℕ
  pub major_rest : Bytes
  pub minor_head : ℕ
  pub minor_rest : Bytes
  pub version : req.version ≡ (major_head ∷ major_rest) ++ (b'.' ∷ minor_head ∷ minor_rest)
  pub major : Passes is_digit (major_head ∷ major_rest)
  pub minor : Passes is_digit (minor_head ∷ minor_rest)
  pub headers : All IsHeader req.headers

match_version_lem :
    (a : ℕ) (as_rest : Bytes) (b : ℕ) (bs : Bytes)
    → Passes is_digit (a ∷ as_rest)
    → Passes is_digit (b ∷ bs)
    → match_version (text "HTTP/" ++ ((a ∷ as_rest) ++ (b'.' ∷ b ∷ bs)))
      ≡ some ((a ∷ as_rest) ++ (b'.' ∷ b ∷ bs), [])
unfolding match_version has_prefix
match_version_lem a as_rest b bs h k =
    rw (taken_lem is_digit a as_rest (b'.' ∷ b ∷ bs) h refl, match_version, has_prefix)
      (rw (last_taken is_digit b bs k) refl)

visible : (c : ℕ) → not (is_white c) ≡ true → is_white c ≡ false
visible c h = elim (Bool-cases (is_white c)) [ inl e ↦ cc | inr e ↦ e ]

match_request_lem :
    (m : Bytes) (c : ℕ) (path version : Bytes)
    → AnyOf m methods
    → Passes (λ c. not (is_white c)) (c ∷ path)
    → match_version (text "HTTP/" ++ version) ≡ some (version, [])
    → match_request (m ++ (b' ' ∷ (c ∷ (path ++ (text " HTTP/" ++ version)))))
      ≡ some (m, c ∷ path, version)
unfolding match_request
match_request_lem m c path version h k e =
    rw (match_method_lem m (b' ' ∷ (c ∷ (path ++ (text " HTTP/" ++ version)))) h, match_request)
      (let seen : is_white c ≡ false = visible c k.0 in
        let gap : white (b' ' ∷ (c ∷ (path ++ (text " HTTP/" ++ version))))
            ≡ some (b' ' ∷ [], c ∷ (path ++ (text " HTTP/" ++ version))) =
          taken_lem is_white b' ' [] (c ∷ (path ++ (text " HTTP/" ++ version))) (refl, tt) seen in
        let target : word (c ∷ (path ++ (text " HTTP/" ++ version)))
            ≡ some (c ∷ path, text " HTTP/" ++ version) =
          taken_lem (λ b. not (is_white b)) c path (text " HTTP/" ++ version) k refl in
        let gap' : white (text " HTTP/" ++ version) ≡ some (b' ' ∷ [], text "HTTP/" ++ version) =
          taken_lem is_white b' ' [] (text "HTTP/" ++ version) (refl, tt) refl in
        rw gap (rw target (rw gap' (rw e refl))))

visible-Lacks : (s : Bytes) → Passes (λ c. not (is_white c)) s → Lacks b'\r' s
visible-Lacks [] h = tt
visible-Lacks (c ∷ s) h =
    let seen : is_white c ≡ false = visible c h.0 in (ground arith, visible-Lacks s h.1)

digits-Lacks : (s : Bytes) → Passes is_digit s → Lacks b'\r' s
digits-Lacks [] h = tt
digits-Lacks (c ∷ s) h = let digit = h.0 in (ground arith, digits-Lacks s h.1)

AnyOf-All : (P : Bytes → Type 0) (m : Bytes) (ks : List Bytes) → AnyOf m ks → All P ks → P m
AnyOf-All P m [] h all = elim h [ ]
AnyOf-All P m (k ∷ ks) (inl e) all = subst P (sym e) all.0
AnyOf-All P m (k ∷ ks) (inr h) all = AnyOf-All P m ks h all.1

Lacks-append : (s t : Bytes) → Lacks b'\r' s → Lacks b'\r' t → Lacks b'\r' (s ++ t)
Lacks-append s t h k = All-append (λ c. c ≢ b'\r') s t h k

abbrev pub request_line : HttpRequest → Bytes
request_line req = req.method ++ (b' ' ∷ (req.path ++ (text " HTTP/" ++ req.version)))

pub request_line_lem :
    (req : HttpRequest)
    → IsRequest req
    → match_request (request_line req) ≡ some (req.method, req.path, req.version)
request_line_lem req h =
    rw (h.path, h.version)
      (match_request_lem req.method h.path_head h.path_rest
        ((h.major_head ∷ h.major_rest) ++ (b'.' ∷ h.minor_head ∷ h.minor_rest)) h.method h.visible
        (match_version_lem h.major_head h.major_rest h.minor_head h.minor_rest h.major h.minor))

path-Lacks : (req : HttpRequest) → IsRequest req → Lacks b'\r' req.path
path-Lacks req h =
    subst (Lacks b'\r') (sym h.path) (visible-Lacks (h.path_head ∷ h.path_rest) h.visible)

version-Lacks : (req : HttpRequest) → IsRequest req → Lacks b'\r' req.version
version-Lacks req h = subst (Lacks b'\r') (sym h.version) (
    Lacks-append (h.major_head ∷ h.major_rest) (b'.' ∷ h.minor_head ∷ h.minor_rest)
      (digits-Lacks (h.major_head ∷ h.major_rest) h.major)
      (ground arith, digits-Lacks (h.minor_head ∷ h.minor_rest) h.minor))

pub request_line-Lacks : (req : HttpRequest) → IsRequest req → Lacks b'\r' (request_line req)
request_line-Lacks req h =
    let tail : Lacks b'\r' (text " HTTP/" ++ req.version) =
      Lacks-append (text " HTTP/") req.version (omega arith) (version-Lacks req h) in
    Lacks-append req.method (b' ' ∷ (req.path ++ (text " HTTP/" ++ req.version)))
      (AnyOf-All (Lacks b'\r') req.method methods h.method (omega arith))
      (ground arith, Lacks-append req.path (text " HTTP/" ++ req.version) (path-Lacks req h) tail)
