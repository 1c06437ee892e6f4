-- ===== src/Session/DbAgent/Query.antt =====
-- DBAgent.cpp: the text of the login query, which the client's id and password are pasted into.
use unreal5_gas.Base.{
  ℕ, ◌≡◌, ◌≢◌, refl, sym, ap, ◌∙◌, some, List, [], ◌∷◌, ◌++◌, arith, length, All, length-append,
  append_assoc,
}
use unreal5_gas.Session.PacketManager.{c_string}
use unreal5_gas.Session.PacketManager.Response.{length-c_string}
use unreal5_gas.Session.DbAgent.{build_query, fits_query, codes, query_head, query_middle}

-- The code of the quote.
abbrev quote : ℕ
quote = 39

abbrev pub HasNoQuote : List ℕ → Type 0
HasNoQuote = All (λ c. c ≢ quote)

cancel_left : (xs : List ℕ) {ys zs : List ℕ} → xs ++ ys ≡ xs ++ zs → ys ≡ zs
cancel_left [] e = e
cancel_left (x ∷ xs) e = cancel_left xs (cc)

cancel_quote :
    (xs ys zs ws : List ℕ)
    → HasNoQuote xs
    → HasNoQuote ys
    → xs ++ (quote ∷ zs) ≡ ys ++ (quote ∷ ws)
    → (xs ≡ ys) × (zs ≡ ws)
cancel_quote [] [] zs ws h k e = (refl, cc)
cancel_quote [] (y ∷ ys) zs ws h k e = absurd (k.0 (cc))
cancel_quote (x ∷ xs) [] zs ws h k e = absurd (h.0 (cc))
cancel_quote (x ∷ xs) (y ∷ ys) zs ws h k e =
    let r = cancel_quote xs ys zs ws h.1 k.1 (cc) in (cc (r.0), r.1)

cancel_right : (xs ys : List ℕ) (b : ℕ) → xs ++ (b ∷ []) ≡ ys ++ (b ∷ []) → xs ≡ ys
cancel_right [] [] b e = refl
cancel_right [] (y ∷ ys) b e = absurd (omega (arith, ap length e, length-append ys (b ∷ [])))
cancel_right (x ∷ xs) [] b e = absurd (omega (arith, ap length e, length-append xs (b ∷ [])))
cancel_right (x ∷ xs) (y ∷ ys) b e = let r = cancel_right xs ys b (cc) in cc r

-- Two logins whose ids hold no quote have the same query only if id and password are the same.
pub build_query-injective :
    (id id' pw pw' : List ℕ)
    → HasNoQuote id
    → HasNoQuote id'
    → build_query id pw ≡ build_query id' pw'
    → (id ≡ id') × (pw ≡ pw')
unfolding build_query
build_query-injective id id' pw pw' h h' e =
    let r = cancel_quote id id' _ _ h h' (cancel_left query_head e) in
    (r.0, cancel_right pw pw' quote (cancel_left (codes " AND PW = '") r.1))

-- With a quote in the id the query does not say where the id ends: a client that puts `b` and the text
-- between the two values into its id asks the same as one with another id and another password.
pub build_query_injection :
    (a b c : List ℕ)
    → build_query (a ++ (query_middle ++ b)) c ≡ build_query a (b ++ (query_middle ++ c))
unfolding build_query
build_query_injection a b c = ap (◌++◌ query_head) (
    append_assoc a (query_middle ++ b) (query_middle ++ (c ++ codes "'"))
    ∙ ap (◌++◌ a) (ap (◌++◌ query_middle) (sym (append_assoc b (query_middle ++ c) (codes "'")))))

-- The id and the password of a request that are terminated in their fields never overrun the
-- buffer of the query.
pub fits_query-build_query :
    (id_field pw_field id pw : List ℕ)
    → length id_field ≡ 33
    → length pw_field ≡ 33
    → c_string id_field ≡ some id
    → c_string pw_field ≡ some pw
    → fits_query (build_query id pw) ≡ some (build_query id pw)
unfolding build_query fits_query
fits_query-build_query id_field pw_field id pw l k e f = ground (
  arith,
  length-c_string id_field e,
  length-c_string pw_field f,
  length-append id (query_middle ++ (pw ++ codes "'")),
  length-append pw (codes "'"),
)
