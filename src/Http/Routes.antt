-- ===== src/Http/Routes.antt =====
-- Which callback of an `HttpServer` a request is given to.
use handy_copy.Http.Headers.{assign, lookup, or_else}
use handy_copy.Http.Request.{HttpRequest}
use handy_copy.Http.Server.{HttpServer, choose, on_request}
use handy_copy.Slice.{same, less}
use handy_copy.Slice.Order.{same_iff}
use handy_copy.Base.{
  Bool-cases, Bytes, List, [], ap, false, if_both, if_cases, if_is_false, if_is_true, if◌then◌else◌,
  inl, inr, refl, some, subst, sym, true, ◌&&◌, ◌∙◌, ◌∷◌, ◌≡◌, ap₂,
}

same_self : (n : Bytes) → same n n ≡ true
same_self n = (same_iff n n).1 refl

module _ {V : Type 0} where
  pub lookup-assign : (n : Bytes) (v : V) (m : List (Bytes × V)) → lookup n (assign n v m) ≡ some v
  unfolding lookup assign
  lookup-assign n v [] = if_is_true _ _ _ (same_self n)
  lookup-assign n v ((k, w) ∷ m) =
      if_cases (λ z. lookup n z ≡ some v) (same n k) (λ e. if_is_true _ _ _ (same_self n))
        (λ e.
          if_both (λ z. lookup n z ≡ some v) (less n k) (if_is_true _ _ _ (same_self n))
            (if_is_false _ _ _ e ∙ lookup-assign n v m))

  pub lookup_other :
      (j n : Bytes) (v : V) (m : List (Bytes × V))
      → same j n ≡ false
      → lookup j (assign n v m) ≡ lookup j m
  unfolding lookup assign
  lookup_other j n v [] d = if_is_false _ _ _ d
  lookup_other j n v ((k, w) ∷ m) d =
      if_cases (λ z. lookup j z ≡ lookup j ((k, w) ∷ m)) (same n k)
        (λ e.
          if_is_false _ _ _ d
          ∙ sym (if_is_false _ _ _ (subst (λ z. same j z ≡ false) ((same_iff n k).0 e) d)))
        (λ e.
          if_both (λ z. lookup j z ≡ lookup j ((k, w) ∷ m)) (less n k) (if_is_false _ _ _ d)
            (ap (λ t. if same j k then some w else t) (lookup_other j n v m d)))

-- Behind `onRequest`, a request of that method and path goes to the new callback, and any other
-- request goes where it went before.
pub choose-on_request :
    {C : Type 0} (s : HttpServer C) (method uri : Bytes) (cb : C) (r : HttpRequest)
    → choose (on_request method uri cb s) r
      ≡ (if same r.method method && same r.uri uri then cb else choose s r)
unfolding choose on_request
choose-on_request s method uri cb r = elim (Bool-cases (same r.method method)) [
  | inr other ↦
      ap (λ t. or_else s.defcb (lookup r.uri (or_else [] t)))
        (lookup_other r.method method _ s.cbs other)
      ∙ sym (if_is_false _ _ _ (ap (λ t. t && same r.uri uri) other))
  | inl is_method ↦ elim (Bool-cases (same r.uri uri)) [
    | inl is_uri ↦
        ap (λ t. or_else s.defcb (lookup r.uri (or_else [] t)))
          (ap (λ t. lookup t (on_request method uri cb s).cbs)
              ((same_iff r.method method).0 is_method)
            ∙ lookup-assign method _ s.cbs)
        ∙ ap (λ t. or_else s.defcb (lookup t (assign uri cb (or_else [] (lookup method s.cbs)))))
            ((same_iff r.uri uri).0 is_uri)
        ∙ ap (or_else s.defcb) (lookup-assign uri cb _)
        ∙ sym (if_is_true _ _ _ (ap₂ ◌&&◌ is_method is_uri))
    | inr no_uri ↦
        ap (λ t. or_else s.defcb (lookup r.uri (or_else [] t)))
          (ap (λ t. lookup t (on_request method uri cb s).cbs)
              ((same_iff r.method method).0 is_method)
            ∙ lookup-assign method _ s.cbs)
        ∙ ap (or_else s.defcb) (lookup_other r.uri uri cb _ no_uri)
        ∙ ap (λ t. or_else s.defcb (lookup r.uri (or_else [] (lookup t s.cbs))))
            (sym ((same_iff r.method method).0 is_method))
        ∙ sym (if_is_false _ _ _ (ap₂ ◌&&◌ is_method no_uri))
  ]
]
