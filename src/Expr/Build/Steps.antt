-- ===== src/Expr/Build/Steps.antt =====
-- One call of a builder in the client: how it carries its arguments' boxes over to the box of its result.
use lancedb_c.Prelude.{
  ℕ, suc, ◌≡◌, refl, Bool, false, Option, none, some, List, [], ◌∷◌, map, ◌==◌, arith,
  if◌then◌else◌, length, ◌∙◌, ap, Bool-cases, inl, inr,
}
use lancedb_c.Text.{Bytes}
use lancedb_c.External.{External}
use lancedb_c.Memory.{
  Cell, Ptr, null, addr, text, expr, pointers, Heap, Cmd, ok, pure, ◌>>=◌, ◌>>◌, write, push, alloc,
  release,
}
use lancedb_c.Memory.Laws.{IsWf, mem-push_old, mem-push_new, release-ok}
use lancedb_c.Memory.Arrays.{has, freed_all, mem-freed_all, next-freed_all}
use lancedb_c.Memory.Returns
use lancedb_c.Memory.Returns.{Returns}
use lancedb_c.Expr.{lancedb_expr_in_list}
use lancedb_c.Expr.Consume.{produced}
use lancedb_c.Expr.InList.{AllOwned, AllOwned-live, somes, any_none, lancedb_expr_in_list-produced}
use lancedb_c.Expr.Build.{Added, Built, BuiltAll}

any_none-map : {A : Type 0} (es : List A) → any_none (map some es) ≡ false
any_none-map [] = refl
any_none-map (e ∷ es) = any_none-map es

somes-map : {A : Type 0} (es : List A) → somes (map some es) ≡ es
somes-map [] = refl
somes-map (e ∷ es) = ap (λ l. e ∷ l) (somes-map es)

-- The call frees the box that it is given, and returns a new one.
abbrev pub ReplacesOne : {X : External} → (Ptr → Cmd X Ptr) → (X.Expr → X.Expr) → Type 0
ReplacesOne {X} f j =
    (k : Heap X) (a : ℕ) (d : X.Expr)
    → k.mem a ≡ some (expr d)
    → f (addr a) k ≡ produced (some (j d)) (write k a none)

-- The call frees the two boxes that it is given, and returns a new one.
abbrev pub ReplacesTwo :
    {X : External} → (Ptr → Ptr → Cmd X Ptr) → (X.Expr → X.Expr → X.Expr) → Type 0
ReplacesTwo {X} f j =
    (k : Heap X) (a b : ℕ) (d d' : X.Expr)
    → k.mem a ≡ some (expr d)
    → k.mem b ≡ some (expr d')
    → (a == b) ≡ false
    → f (addr a) (addr b) k ≡ produced (some (j d d')) (write (write k a none) b none)

module _ {X : External} where
  -- A box is replaced by a new one.
  replaced :
      (h g : Heap X) (d e : X.Expr) (a : ℕ)
      → Added h d a g
      → Built h e (addr g.next) (push (write g a none) (expr e))
  unfolding push write
  replaced h g d e a built = record {
    fresh = ground (arith, built.same g.next, built.wf.unused g.next, built.fresh);
    holds = ground arith;
    same = λ b out. ground (arith, built.same b, built.fresh);
    wf = record { unused = λ b le. ground (arith, built.wf.unused b) };
  }

  -- Two boxes are replaced by a new one.
  replaced_two :
      (h g k : Heap X) (d d' e : X.Expr) (a b : ℕ)
      → Added h d a g
      → Added g d' b k
      → Built h e (addr k.next) (push (write (write k a none) b none) (expr e))
  unfolding push write
  replaced_two h g k d d' e a b built built' = record {
    fresh = ground (
      arith,
      built'.wf.unused k.next,
      built'.same k.next,
      built.same k.next,
      built'.fresh,
      built.fresh,
    );
    holds = ground arith;
    same = λ c out. ground (arith, built.same c, built'.same c, built.fresh, built'.fresh);
    wf = record { unused = λ c le. ground (arith, built'.wf.unused c) };
  }

  -- The first box is still there when the second is built.
  kept :
      (h g k : Heap X) (d d' : X.Expr) (a b : ℕ)
      → Added h d a g
      → Added g d' b k
      → (k.mem a ≡ some (expr d)) × ((a == b) ≡ false)
  kept h g k d d' a b built built' = elim (Bool-cases (a == b)) [
    | inl same ↦ absurd (ground (arith, built.holds, built'.fresh))
    | inr apart ↦ (built'.same a apart ∙ built.holds, apart)
  ]

  pub alloc-Built : (h : Heap X) (e : X.Expr) → IsWf h → Built h e (addr h.next) (push h (expr e))
  unfolding push write
  alloc-Built h e wf = record {
    fresh = wf.unused h.next (omega arith);
    holds = ground arith;
    same = λ b out. ground arith;
    wf = record { unused = λ b le. ground (arith, wf.unused b) };
  }

  -- A call that replaces one box.
  pub unary_call :
      (f : Ptr → Cmd X Ptr) (j : X.Expr → X.Expr)
      → ReplacesOne f j
      → (l : Cmd X Ptr) (d : X.Expr) (h : Heap X) → Returns (Built h d) (l h)
      → Returns (Built h (j d)) ((l >>= f) h)
  unfolding push
  unary_call f j call l d h left =
      Returns.bind (Built h d) (Built h (j d)) (l h) f left (step f j call d h)
    where
      step :
          (f : Ptr → Cmd X Ptr) (j : X.Expr → X.Expr)
          → ReplacesOne f j
          → (d : X.Expr) (h : Heap X) (p : Ptr) (g : Heap X) → Built h d p g
          → Returns (Built h (j d)) (f p g)
      step f j call d h null g built = absurd built
      step f j call d h (addr a) g built =
          rw (call g a d built.holds) (replaced h g d (j d) a built)

  -- A call that replaces two boxes.
  pub binary_call :
      (f : Ptr → Ptr → Cmd X Ptr) (j : X.Expr → X.Expr → X.Expr)
      → ReplacesTwo f j
      → (l r : Cmd X Ptr) (d d' : X.Expr) (h : Heap X) → Returns (Built h d) (l h)
      → ((g : Heap X) → IsWf g → Returns (Built g d') (r g))
      → Returns (Built h (j d d')) ((l >>= λ p. r >>= λ q. f p q) h)
  unfolding push
  binary_call f j call l r d d' h left right =
      Returns.bind (Built h d) (Built h (j d d')) (l h) _ left (first f j call r d d' h right)
    where
      second :
          (f : Ptr → Ptr → Cmd X Ptr) (j : X.Expr → X.Expr → X.Expr)
          → ReplacesTwo f j
          → (d d' : X.Expr) (h : Heap X) (a : ℕ) (g : Heap X) → Added h d a g
          → (q : Ptr) (k : Heap X) → Built g d' q k
          → Returns (Built h (j d d')) (f (addr a) q k)
      second f j call d d' h a g built null k built' = absurd built'
      second f j call d d' h a g built (addr b) k built' =
          let (live, apart) = kept h g k d d' a b built built' in
          rw (call k a b d d' live built'.holds apart)
            (replaced_two h g k d d' (j d d') a b built built')

      first :
          (f : Ptr → Ptr → Cmd X Ptr) (j : X.Expr → X.Expr → X.Expr)
          → ReplacesTwo f j
          → (r : Cmd X Ptr) (d d' : X.Expr) (h : Heap X)
          → ((g : Heap X) → IsWf g → Returns (Built g d') (r g))
          → (p : Ptr) (g : Heap X) → Built h d p g
          → Returns (Built h (j d d')) ((r >>= λ q. f p q) g)
      first f j call r d d' h right null g built = absurd built
      first f j call r d d' h right (addr a) g built =
          Returns.bind (Built g d') (Built h (j d d')) (r g) _ (right g built.wf)
            (second f j call d d' h a g built)

  -- A call that reads a text of the client's, which is freed afterwards.
  pub text_call :
      (f : Ptr → Cmd X Ptr) (j : Bytes → X.Expr) (s : Bytes)
      → ((k : Heap X) (a : ℕ)
          → k.mem a ≡ some (text s)
          → f (addr a) k ≡ ok (addr k.next) (push k (expr (j s))))
      → (h : Heap X) → IsWf h
      → Returns (Built h (j s)) ((alloc (text s) >>= λ p. f p >>= λ q. release p >> pure q) h)
  unfolding alloc push write
  text_call f j s call h wf = rw (call (push h (text s)) h.next (ground arith)) (
      rw (release-ok (push (push h (text s)) (expr (j s))) h.next (text s) (ground arith)) (record {
        fresh = wf.unused (suc h.next) (omega arith);
        holds = ground arith;
        same = λ b out. ground (arith, wf.unused h.next);
        wf = record { unused = λ b le. ground (arith, wf.unused b) };
      }))

  pub BuiltAll-nil : (h : Heap X) → IsWf h → BuiltAll h [] [] h
  BuiltAll-nil h wf = record {
    owned = tt;
    fresh = λ b in_ps. absurd (cc);
    same = λ b out. refl;
    wf = wf;
  }

  pub BuiltAll-cons :
      (h k g : Heap X) (e : X.Expr) (es : List X.Expr) (a : ℕ) (ps : List Ptr)
      → Added h e a k
      → BuiltAll k es ps g
      → BuiltAll h (e ∷ es) (addr a ∷ ps) g
  BuiltAll-cons h k g e es a ps built all = elim (Bool-cases (has a ps)) [
    | inl in_ps ↦ let gone = all.fresh a in_ps in absurd (ground (arith, built.holds))
    | inr out ↦ record {
      owned = (all.same a out ∙ built.holds, out, all.owned);
      fresh = λ b in_ps. ground (arith, built.fresh, built.same b, all.fresh b);
      same = λ b out'. ground (arith, built.same b, all.same b);
      wf = all.wf;
    }
  ]

  AllOwned-push :
      (h : Heap X) (c : Cell X) (ps : List Ptr) (os : List (Option X.Expr))
      → IsWf h
      → AllOwned h ps os
      → AllOwned (push h c) ps os
  AllOwned-push h c [] [] wf own = own
  AllOwned-push h c [] (o ∷ os) wf own = own
  AllOwned-push h c (p ∷ ps) [] wf own = absurd own
  AllOwned-push h c (null ∷ ps) (o ∷ os) wf (e, own) = (e, AllOwned-push h c ps os wf own)
  AllOwned-push h c (addr b ∷ ps) (none ∷ os) wf (live, apart, own) = absurd live
  AllOwned-push h c (addr b ∷ ps) (some e ∷ os) wf (live, apart, own) =
      (mem-push_old b (expr e) c wf live, apart, AllOwned-push h c ps os wf own)

module _ {X : External} (h g k : Heap X) (d : X.Expr) (es : List X.Expr) (a : ℕ) (ps : List Ptr)
    (negated : Bool) (built : Added h d a g) (all : BuiltAll g es ps k) where
  -- the memory before, by the memory with the boxes
  mem_before : (b : ℕ) → h.mem b ≡ (if b == a then none else if has b ps then none else k.mem b)
  mem_before b = ground (arith, built.fresh, built.same b, all.fresh b, all.same b)

  -- the tested expression's box is no item's
  a_out : has a ps ≡ false
  a_out = elim (Bool-cases (has a ps)) [
    | inl in_ps ↦ let gone = all.fresh a in_ps in absurd (ground (arith, built.holds))
    | inr out ↦ out
  ]

  -- no item's box is at the address of the array
  array_out : has k.next ps ≡ false
  array_out = elim (Bool-cases (has k.next ps)) [
    | inl in_ps ↦
        let (e, live) = AllOwned-live ps _ k k.next all.owned in_ps in
        absurd (ground (arith, all.wf.unused k.next))
    | inr out ↦ out
  ]

  array_apart : (k.next == a) ≡ false
  array_apart = ground (arith, all.wf.unused a, all.same a a_out, built.holds)

  -- the memory of the two sides of the call: without the boxes that it takes, and with the new one
  taken : Heap X
  taken = freed_all ps (write (push k (pointers (map some ps))) a none)

  mem-taken :
      (b : ℕ)
      → taken.mem b ≡ (
          if has b ps
          then none
          else if b == a
          then none
          else if b == k.next
          then some (pointers (map some ps))
          else k.mem b)
  unfolding taken write push
  mem-taken b = mem-freed_all ps (write (push k (pointers (map some ps))) a none) b

  next-taken : taken.next ≡ suc k.next
  unfolding taken write push
  next-taken = next-freed_all ps (write (push k (pointers (map some ps))) a none)

  in_list_done :
      Built h
        (X.in_list_expr d es negated)
        (addr taken.next)
        (write (push taken (expr (X.in_list_expr d es negated))) k.next none)
  unfolding write push
  in_list_done = record {
    fresh = ground (arith, mem_before taken.next, next-taken, all.wf.unused taken.next);
    holds = ground (arith, next-taken);
    same = λ b out. ground (arith, mem_before b, mem-taken b, all.wf.unused k.next);
    wf = record { unused = λ b le. ground (arith, mem-taken b, next-taken, all.wf.unused b) };
  }

  array_kept :
      (push taken (expr (X.in_list_expr d es negated))).mem k.next ≡ some (pointers (map some ps))
  unfolding push write
  array_kept = ground (arith, mem-taken k.next, next-taken, array_out, array_apart)

  in_list_result :
      lancedb_expr_in_list
        (addr a)
        (addr k.next)
        (length ps)
        negated
        null
        (push k (pointers (map some ps)))
      ≡ ok (addr taken.next) (push taken (expr (X.in_list_expr d es negated)))
  unfolding taken
  in_list_result =
      lancedb_expr_in_list-produced (push k (pointers (map some ps))) a k.next d ps (map some es)
        negated null (mem-push_old a _ _ all.wf (all.same a a_out ∙ built.holds)) (mem-push_new k _)
        array_apart array_out a_out (AllOwned-push k _ ps _ all.wf all.owned) (any_none-map es)
      ∙ ap (λ l. produced (some (X.in_list_expr d l negated)) taken) (somes-map es)

  -- The list builder in an array of the client's, which is freed afterwards.
  pub in_list_call : Returns (Built h (X.in_list_expr d es negated)) (
      (alloc (pointers (map some ps)) >>= λ l.
      lancedb_expr_in_list (addr a) l (length ps) negated null >>= λ q. release l >> pure q)
        k)
  unfolding alloc
  in_list_call = rw in_list_result (
      rw
        (release-ok (push taken (expr (X.in_list_expr d es negated))) k.next
          (pointers (map some ps)) array_kept)
        in_list_done)
