-- ===== src/ClientHandler/Rewriting.antt =====
-- The headers that the proxy adds.
use nginx_remake_v.Prelude.{
  ◌≡◌, ap, ◌∙◌, inl, inr, Bool, Option, none, some, [], ◌∷◌, ◌++◌, refl, arith, if◌then◌else◌, eqb,
  length, Option-cases, Text, codes, ◌==◌, number_keys, text_keys,
}
use nginx_remake_v.Prelude.Dict.{Dict, lookup, insert, lookup-insert}
use nginx_remake_v.Headers.{HttpRequest}
use nginx_remake_v.ClientHandler.{Settings, modify_request_headers}
use nginx_remake_v.Messages.{get_or_empty}
use nginx_remake_v.ClientHandler.{
  connection_value, forwarded_for, add_forwarded_for, request_headers,
}

-- An address behind a list of addresses, which may be empty.
abbrev pub behind : Text → Text → Text
behind addresses a = if eqb (length addresses) 0 then a else addresses ++ (codes ", " ++ a)

forwarded_for-behind :
    (s : Settings) (addresses a : Text) → forwarded_for s addresses a ≡ behind addresses a
unfolding forwarded_for
forwarded_for-behind s [] a = refl
forwarded_for-behind s (c ∷ addresses) a = ground arith

-- The value that a request header has after the proxy: its own headers, and the client's others.
abbrev pub rewritten : Settings → Dict Text Text → Bool → Text → Option Text
rewritten s headers keep k =
    if codes "connection" == k
    then some (connection_value s keep)
    else if codes "via" == k
    then some (codes "1.1 nginx_remake")
    else if codes "x-forwarded-host" == k
    then some (get_or_empty (codes "host") headers)
    else if codes "x-forwarded-proto" == k
    then some (codes "http")
    else if codes "x-forwarded-for" == k
    then (elim s.peer [
      | none ↦ lookup k headers
      | some address ↦ some (behind (get_or_empty (codes "x-forwarded-for") headers) address)
    ])
    else lookup k headers

add_forwarded_for-lookup :
    (s : Settings) (headers : Dict Text Text) (k : Text)
    → lookup k (add_forwarded_for s headers) ≡ (
        if codes "x-forwarded-for" == k
        then (elim s.peer [
          | none ↦ lookup k headers
          | some address ↦ some (behind (get_or_empty (codes "x-forwarded-for") headers) address)
        ])
        else lookup k headers)
unfolding add_forwarded_for
add_forwarded_for-lookup s headers k = elim (Option-cases s.peer) [
  | inl e ↦ ground (arith, e)
  | inr (a, e) ↦ ground (
    arith,
    e,
    lookup-insert (codes "x-forwarded-for") k
        (behind (get_or_empty (codes "x-forwarded-for") headers) a) headers,
    forwarded_for-behind s (get_or_empty (codes "x-forwarded-for") headers) a,
  )
]

host_stays :
    (s : Settings) (headers : Dict Text Text)
    → lookup
        (codes "host")
        (insert (codes "x-forwarded-proto") (codes "http") (add_forwarded_for s headers))
      ≡ lookup (codes "host") headers
host_stays s headers =
    lookup-insert (codes "x-forwarded-proto") (codes "host") (codes "http")
      (add_forwarded_for s headers)
    ∙ add_forwarded_for-lookup s headers (codes "host")

-- The request for the upstream has the proxy's own connection, via, x-forwarded-host and
-- x-forwarded-proto, the client's address behind those of x-forwarded-for, and every other header
-- as the client sent it.
pub modify_request_headers-lookup :
    (s : Settings) (req : HttpRequest) (keep : Bool) (k : Text)
    → lookup k (modify_request_headers s req keep).headers ≡ rewritten s req.headers keep k
unfolding modify_request_headers request_headers
modify_request_headers-lookup s req keep k =
    let h1 = add_forwarded_for s req.headers in
    let h2 = insert (codes "x-forwarded-proto") (codes "http") h1 in
    let host = get_or_empty (codes "host") h2 in
    let h3 = insert (codes "x-forwarded-host") host h2 in
    let h4 = insert (codes "via") (codes "1.1 nginx_remake") h3 in
    let same : host ≡ get_or_empty (codes "host") req.headers =
      ap (λ (o : Option Text). (elim o as (λ x. Text) [ none ↦ [] | some v ↦ v ]))
        (host_stays s req.headers) in
    ground (
      arith,
      lookup-insert (codes "connection") k (connection_value s keep) h4,
      lookup-insert (codes "via") k (codes "1.1 nginx_remake") h3,
      lookup-insert (codes "x-forwarded-host") k host h2,
      lookup-insert (codes "x-forwarded-proto") k (codes "http") h1,
      add_forwarded_for-lookup s req.headers k,
      same,
    )
