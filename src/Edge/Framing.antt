-- ===== src/Edge/Framing.antt =====
-- internal/edge/edge.go: stripFramingHeaders, which lets a page be embedded in a frame.
use beamd.Prelude.{
  map, ◌≡◌, refl, Bool, false, not, ◌&&◌, ◌||◌, List, [], ◌∷◌, ◌++◌, none, some, Bytes, codes,
  is_empty, ◌==◌, nat_eq, list_eq, if◌then◌else◌, split, equal_fold, filter_by, lookup, insert,
  erase, lookup-insert, lookup-erase, if_cases, ◌∙◌,
}

-- `trim_space` is strings.TrimSpace.
module _ (trim_space : Bytes → Bytes) where
  -- What comes before the first space or tab.
  unfoldable pub directive_name : Bytes → Bytes
  directive_name [] = []
  directive_name (c ∷ d) = if c == b' ' || c == 9 then [] else c ∷ directive_name d

  -- A directive stays if it is not empty and is not frame-ancestors.
  unfoldable pub is_kept : Bytes → Bool
  unfolding directive_name
  is_kept d = not (is_empty d) && not (equal_fold (directive_name d) (codes "frame-ancestors"))

  unfoldable pub kept_directives : Bytes → List Bytes
  unfolding is_kept
  kept_directives csp = filter_by is_kept (map trim_space (split b';' csp))

  unfoldable pub join : List Bytes → Bytes
  join [] = []
  join (d ∷ []) = d
  join (d ∷ d' ∷ ds) = d ++ codes "; " ++ join (d' ∷ ds)

  unfoldable pub strip_frame_ancestors : Bytes → Bytes
  unfolding kept_directives join
  strip_frame_ancestors csp = join (kept_directives csp)

  -- Header.Get: the first value, or the empty text.
  unfoldable pub get_header : Bytes → List (Bytes × List Bytes) → Bytes
  get_header h headers = elim (lookup h headers) [
    | none ↦ []
    | some vs ↦ elim vs [ [] ↦ [] | v ∷ rest ↦ v ]
  ]

  -- One of the two policy headers: it is deleted if nothing of its first value is left, and else set
  -- to that one value.
  unfoldable pub relax : Bytes → List (Bytes × List Bytes) → List (Bytes × List Bytes)
  unfolding strip_frame_ancestors get_header
  relax h headers =
      let csp = get_header h headers in
      if is_empty csp
      then headers
      else if is_empty (strip_frame_ancestors csp)
      then erase h headers
      else insert h (strip_frame_ancestors csp ∷ []) headers

  abbrev pub frame_options : Bytes
  frame_options = codes "X-Frame-Options"

  abbrev pub policy : Bytes
  policy = codes "Content-Security-Policy"

  abbrev pub report_policy : Bytes
  report_policy = codes "Content-Security-Policy-Report-Only"

  unfoldable pub strip_framing_headers : List (Bytes × List Bytes) → List (Bytes × List Bytes)
  unfolding relax
  strip_framing_headers headers = relax report_policy (relax policy (erase frame_options headers))

  relax_other :
      (h k : Bytes) (headers : List (Bytes × List Bytes))
      → (h == k) ≡ false
      → lookup k (relax h headers) ≡ lookup k headers
  unfolding relax
  relax_other h k headers other =
      let csp = strip_frame_ancestors (get_header h headers) in
      let P : List (Bytes × List Bytes) → Type 0 = λ o. lookup k o ≡ lookup k headers in
      if_cases P (is_empty (get_header h headers)) refl (
        if_cases P (is_empty csp) (lookup-erase h k headers ∙ rw other refl)
          (lookup-insert h k (csp ∷ []) headers ∙ rw other refl))

  -- The X-Frame-Options header is gone, and every header but it and the two policies is untouched.
  pub lookup-strip_framing_headers :
      (k : Bytes) (headers : List (Bytes × List Bytes))
      → (policy == k) ≡ false
      → (report_policy == k) ≡ false
      → lookup k (strip_framing_headers headers)
        ≡ (if frame_options == k then none else lookup k headers)
  unfolding strip_framing_headers
  lookup-strip_framing_headers k headers p r =
      relax_other report_policy k (relax policy (erase frame_options headers)) r
      ∙ relax_other policy k (erase frame_options headers) p
      ∙ lookup-erase frame_options k headers
