-- ===== src/Paths/Normal.antt =====
-- Normal paths: splitting, resolving and rendering undo one another.
use mathlib.Core.List.{reverse, reverse-cons, append_assoc, append-nil}
use inter_agent_bus.Base.{
  true, false, List, [], ◌∷◌, ◌++◌, ◌≡◌, refl, sym, ap, ◌∙◌, Text, codes, ◌==◌, has_code, All,
  All-append, Bool-cases, inl, inr,
}
use inter_agent_bus.Strings.Split.{NoCode, split_on, split_on-last, split_on-next, split_on-NoCode}
use inter_agent_bus.Paths.{
  slash, split_slash, parent, resolve_part, resolve_parts, render_parts, render, is_absolute,
  resolve_stack, resolve, join,
}

abbrev pub NoSlash : Text → Type 0
NoSlash = NoCode slash

-- A directory's or a file's name in a normal path.
pub record IsPart (p : Text) : Type 0 where
  pub no_slash : NoSlash p
  pub not_empty : (p == []) ≡ false
  pub not_dot : (p == codes ".") ≡ false
  pub not_up : (p == codes "..") ≡ false

split_slash-parts :
    (p : Text) (ps : List Text)
    → NoSlash p
    → All IsPart ps
    → split_slash (p ++ render_parts ps) ≡ p ∷ ps
unfolding render_parts
split_slash-parts p [] h _ = rw append-nil (split_on-last slash p h)
split_slash-parts p (q ∷ qs) h (k, ks) =
    split_on-next slash p (q ++ render_parts qs) h
    ∙ ap (◌∷◌ p) (split_slash-parts q qs k.no_slash ks)

-- Resolving parts of a normal path puts them behind the directories that are there.
pub resolve_parts-append :
    (stack ps : List Text) → All IsPart ps → reverse (resolve_parts stack ps) ≡ reverse stack ++ ps
unfolding resolve_parts resolve_part
resolve_parts-append stack [] _ = sym (append-nil (reverse stack))
resolve_parts-append stack (p ∷ ps) (k, ks) =
    rw (k.not_empty, k.not_dot, k.not_up)
      (resolve_parts-append (p ∷ stack) ps ks
        ∙ (ap (λ (l : List Text). l ++ ps) (reverse-cons p stack)
            ∙ append_assoc (reverse stack) (p ∷ []) ps))

-- The directories of an absolute path.
unfoldable pub dirs : Text → List Text
dirs s = reverse (resolve_parts [] (split_slash s))

resolve_parts-nil : (stack ps : List Text) → resolve_parts stack ([] ∷ ps) ≡ resolve_parts stack ps
unfolding resolve_parts resolve_part ◌==◌
resolve_parts-nil stack ps = refl

pub dirs-render : (ps : List Text) → All IsPart ps → dirs (render ps) ≡ ps
unfolding dirs render has_code
dirs-render [] _ = unfold split_on resolve_parts resolve_part ◌==◌ in refl
dirs-render (p ∷ ps) (k, ks) =
    rw (absolute, resolve_parts-nil) (resolve_parts-append [] (p ∷ ps) (k, ks))
  where
    absolute : split_slash (render_parts (p ∷ ps)) ≡ [] ∷ p ∷ ps
    absolute =
        unfold render_parts in
        (split_on-next slash [] (p ++ render_parts ps) refl
          ∙ ap (◌∷◌ []) (split_slash-parts p ps k.no_slash ks))

-- Resolving leaves a normal path's parts only.
All-parent : (stack : List Text) → All IsPart stack → All IsPart (parent stack)
unfolding parent
All-parent [] h = tt
All-parent (d ∷ ds) h = h.1

resolve_part-IsPart :
    (stack : List Text) (p : Text)
    → NoSlash p
    → All IsPart stack
    → All IsPart (resolve_part stack p)
unfolding resolve_part
resolve_part-IsPart stack p h k = elim (Bool-cases (p == [])) [
  | inl e ↦ rw e k
  | inr e ↦ elim (Bool-cases (p == codes ".")) [
    | inl d ↦ rw (e, d) k
    | inr d ↦ elim (Bool-cases (p == codes "..")) [
      | inl u ↦ rw (e, d, u) (All-parent stack k)
      | inr u ↦ rw (e, d, u) (record { no_slash = h; not_empty = e; not_dot = d; not_up = u }, k)
    ]
  ]
]

pub resolve_parts-IsPart :
    (stack ps : List Text) → All NoSlash ps → All IsPart stack → All IsPart (resolve_parts stack ps)
unfolding resolve_parts
resolve_parts-IsPart stack [] h k = k
resolve_parts-IsPart stack (p ∷ ps) h k =
    resolve_parts-IsPart (resolve_part stack p) ps h.1 (resolve_part-IsPart stack p h.0 k)

All-reverse : (ps : List Text) → All IsPart ps → All IsPart (reverse ps)
All-reverse [] h = tt
All-reverse (p ∷ ps) h =
    rw (reverse-cons p ps) (All-append IsPart (reverse ps) (p ∷ []) (All-reverse ps h.1) (h.0, tt))

is_absolute-render : (ps : List Text) → is_absolute (render ps) ≡ true
unfolding is_absolute render
is_absolute-render [] = refl
is_absolute-render (p ∷ ps) = refl

-- The directories of `path.resolve(base, p)`.
unfoldable pub resolved_dirs : Text → Text → List Text
resolved_dirs base p = reverse (resolve_stack base p)

pub resolved_dirs-IsPart : (base p : Text) → All IsPart (resolved_dirs base p)
unfolding resolved_dirs resolve_stack
resolved_dirs-IsPart base p =
    All-reverse (resolve_stack base p) (elim (Bool-cases (is_absolute p)) [
      | inl e ↦ rw e (resolve_parts-IsPart [] (split_slash p) (split_on-NoCode slash p) tt)
      | inr e ↦ rw e (
          resolve_parts-IsPart (resolve_parts [] (split_slash base)) (split_slash p)
            (split_on-NoCode slash p)
            (resolve_parts-IsPart [] (split_slash base) (split_on-NoCode slash base) tt))
    ])

-- A normal absolute path resolves to itself, from wherever.
pub resolve-render :
    (base : Text) (ps : List Text) → All IsPart ps → resolve base (render ps) ≡ render ps
unfolding resolve resolve_stack
resolve-render base ps h = rw (is_absolute-render ps) (ap render (unfold dirs in dirs-render ps h))

-- Joining one more part to an absolute path normalises the path and puts the part behind.
pub join-last :
    (base q : Text)
    → IsPart q
    → join base q ≡ render (reverse (resolve_parts [] (split_slash base)) ++ q ∷ [])
unfolding join
join-last base q k =
    rw (split_on-last slash q k.no_slash)
      (ap render (resolve_parts-append (resolve_parts [] (split_slash base)) (q ∷ []) (k, tt)))

-- Joining one more part to a normal absolute path puts it behind.
pub join-part :
    (ps : List Text) (q : Text)
    → All IsPart ps
    → IsPart q
    → join (render ps) q ≡ render (ps ++ q ∷ [])
join-part ps q h k =
    join-last (render ps) q k
    ∙ ap (λ (l : List Text). render (l ++ q ∷ [])) (unfold dirs in dirs-render ps h)
