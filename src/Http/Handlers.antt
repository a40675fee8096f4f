-- ===== src/Http/Handlers.antt =====
-- The choice of a handler in src/netter/http_handler_map.cpp and http_conn.cpp.
use netter.Common.{
  ℕ, true, List, [], ◌∷◌, ◌++◌, Option, none, some, if◌then◌else◌, ne→==, ◌≡◌, ◌≢◌, refl, ap, sym,
  ◌∙◌, All, arith, append-nil, Bool-cases, Option-cases, inl, inr,
}
use netter.Http.{same_text, get_handler, add_handler, handler_url}

pub same_text-eq : (xs ys : List ℕ) → same_text xs ys ≡ true → xs ≡ ys
unfolding same_text
same_text-eq [] [] e = refl
same_text-eq [] (y ∷ ys) e = absurd cc
same_text-eq (x ∷ xs) [] e = absurd cc
same_text-eq (x ∷ xs) (y ∷ ys) e = ground (arith, same_text-eq xs ys)

pub same_text_refl : (xs : List ℕ) → same_text xs xs ≡ true
unfolding same_text
same_text_refl [] = refl
same_text_refl (x ∷ xs) = ground (arith, same_text_refl xs)

-- The first handler that is found, else another.
abbrev pub found_or {ℓ} : {A : Type ℓ} → Option A → Option A → Option A
found_or none other = other
found_or (some h) other = some h

found_or-none {ℓ} : {A : Type ℓ} (o : Option A) → found_or o none ≡ o
found_or-none none = refl
found_or-none (some h) = refl

module _ {Handler : Type 0} where
  get_handler-append :
      (handlers : List (List ℕ × Handler)) (url key : List ℕ) (h : Handler)
      → get_handler (handlers ++ ((key, h) ∷ [])) url
        ≡ found_or (get_handler handlers url) (if same_text key url then some h else none)
  unfolding get_handler
  get_handler-append [] url key h = refl
  get_handler-append ((k, g) ∷ rest) url key h = elim (Bool-cases (same_text k url)) [
    | inl here ↦ rw here refl
    | inr later ↦ rw later (get_handler-append rest url key h)
  ]

  -- `AddHandler` gives its URL the handler if it has none, keeps the one that it has, and leaves every
  -- other URL as it was.
  pub get_handler-add_handler :
      (handlers : List (List ℕ × Handler)) (key : List ℕ) (h : Handler) (url : List ℕ)
      → get_handler (add_handler handlers key h) url
        ≡ found_or (get_handler handlers url) (if same_text key url then some h else none)
  unfolding add_handler
  get_handler-add_handler handlers key h url = elim (Option-cases (get_handler handlers key)) [
    | inl new ↦ rw (new, add_handler) (get_handler-append handlers url key h)
    | inr (old, e) ↦ elim (Bool-cases (same_text key url)) [
      | inl same ↦
          let e' : get_handler handlers url ≡ some old =
            ap (get_handler handlers) (sym (same_text-eq key url same)) ∙ e in
          rw (e, add_handler, e') refl
      | inr other ↦ rw (e, add_handler, other) (sym (found_or-none (get_handler handlers url)))
    ]
  ]

-- Neither a byte that ends a C string nor '?'.
abbrev pub IsPlain : List ℕ → Type 0
IsPlain path = All (λ c. (c ≢ 0) × (c ≢ b'?')) path

handler_url-plain :
    (path rest : List ℕ) → IsPlain path → handler_url (path ++ rest) ≡ path ++ handler_url rest
unfolding handler_url
handler_url-plain [] rest plain = refl
handler_url-plain (c ∷ cs) rest ((no_end, no_query), plain) =
    rw (ne→== c 0 no_end, ne→== c b'?' no_query) (ap (λ q. c ∷ q) (handler_url-plain cs rest plain))

-- The handler is chosen by the path alone: for a path without '?' and without a byte that is 0, the
-- part of the URL that is looked up is the path, whether a query follows or not and whatever it is.
pub handler_url-path :
    (path query : List ℕ)
    → IsPlain path
    → (handler_url (path ++ (b'?' ∷ query)) ≡ path) × (handler_url path ≡ path)
unfolding handler_url
handler_url-path path query plain = (
  handler_url-plain path (b'?' ∷ query) plain ∙ append-nil path,
  ap handler_url (sym (append-nil path)) ∙ handler_url-plain path [] plain ∙ append-nil path,
)
