-- ===== src/Process/Invariant.antt =====
-- What holds of the tables of a process between two handlers.
use mage.Base.{
  zero, suc, ◌≡◌, refl, sym, ap, subst, ◌∙◌, List, [], ◌∷◌, ◌++◌, map, some, get_elem?, set, length,
  All, All-map, All-append, get_elem?-append_left,
}
use mathlib.Core.List.{map-append, append-nil, append_assoc}
use mathlib.Core.Option.{some-injective}
use mage.Message.{Name, MessagePipe}
use mage.Endpoint.{Endpoint, Address, new_endpoint}
use mage.Endpoint.Valid.{IsValid, new_endpoint-IsValid}
use mage.Process.{Process, Ref}
use mage.Process.Laws.{with_endpoint}

abbrev pub names : List Endpoint → List Name
names = map (λ e. e.name)

-- A reference leads to an endpoint of this name.
abbrev pub Leads : List Endpoint → Name → Ref → Type 0
Leads heap name r = get_elem? (names heap) r ≡ some name

-- Endpoints are made and change, but none goes away or changes its name.
abbrev pub Grows : List Endpoint → List Endpoint → Type 0
Grows old new = (more : List Name) × (names new ≡ names old ++ more)

-- An endpoint is registered under its name; every handle, and every pending invitation, leads to an
-- endpoint; every endpoint is valid.
pub record Tables (heap : List Endpoint) (locals : List (Name × Ref))
    (handles : List (MessagePipe × Ref)) (pending : List (Name × Ref)) : Type 0 where
  pub registered : All (λ (name, r). Leads heap name r) locals
  pub handled : All (λ (handle, r). (name : Name) × Leads heap name r) handles
  pub invited : All (λ (node, r). (name : Name) × Leads heap name r) pending
  pub valid : All IsValid heap

abbrev pub Inv : Process → Type 0
Inv s = Tables s.heap s.local_endpoints s.handle_table s.pending_invitations

-- The postcondition of every operation.
abbrev pub After : Process → Process → Type 0
After s t = Inv t × Grows s.heap t.heap

pub Grows-refl : (heap : List Endpoint) → Grows heap heap
Grows-refl heap = ([], sym (append-nil _))

pub Grows-trans : (a b c : List Endpoint) → Grows a b → Grows b c → Grows a c
Grows-trans a b c (xs, e) (ys, f) =
    (xs ++ ys, f ∙ ap (λ l. l ++ ys) e ∙ append_assoc (names a) xs ys)

pub Leads-Grows :
    (a b : List Endpoint) (name : Name) (r : Ref) → Grows a b → Leads a name r → Leads b name r
Leads-Grows a b name r (xs, e) h =
    subst (λ l. get_elem? l r ≡ some name) (sym e) (get_elem?-append_left (names a) xs r h)

-- Tables stay good when endpoints are added or change validly.
pub Tables-Grows :
    (a b : List Endpoint) (locals : List (Name × Ref)) (handles : List (MessagePipe × Ref))
    (pending : List (Name × Ref))
    → Grows a b
    → All IsValid b
    → Tables a locals handles pending
    → Tables b locals handles pending
Tables-Grows a b locals handles pending g v t = record {
  registered = All-map _ _ locals (λ (name, r) h. Leads-Grows a b name r g h) t.registered;
  handled =
      All-map _ _ handles (λ (handle, r) (name, h). (name, Leads-Grows a b name r g h)) t.handled;
  invited =
      All-map _ _ pending (λ (node, r) (name, h). (name, Leads-Grows a b name r g h)) t.invited;
  valid = v;
}

names-set :
    (heap : List Endpoint) (r : Ref) (e e' : Endpoint)
    → get_elem? heap r ≡ some e
    → e'.name ≡ e.name
    → names (set heap r e') ≡ names heap
names-set [] r e e' h n = refl
names-set (x ∷ heap) zero e e' h n =
    ap (λ q. q ∷ names heap) (n ∙ sym (ap (λ q. q.name) (some-injective _ _ h)))
names-set (x ∷ heap) (suc r) e e' h n = ap (◌∷◌ x.name) (names-set heap r e e' h n)

pub All-set :
    (P : Endpoint → Type 0) (heap : List Endpoint) (r : Ref) (e' : Endpoint)
    → All P heap
    → P e'
    → All P (set heap r e')
All-set P [] r e' h p = tt
All-set P (x ∷ heap) zero e' h p = (p, h.1)
All-set P (x ∷ heap) (suc r) e' h p = (h.0, All-set P heap r e' h.1 p)

pub All-get :
    (P : Endpoint → Type 0) (heap : List Endpoint) (r : Ref) (e : Endpoint)
    → All P heap
    → get_elem? heap r ≡ some e
    → P e
All-get P [] r e h g = cc
All-get P (x ∷ heap) zero e h g = subst P (some-injective _ _ g) h.0
All-get P (x ∷ heap) (suc r) e h g = All-get P heap r e h.1 g

-- A method changed the endpoint at `r`.
pub set-After :
    (s : Process) (r : Ref) (e e' : Endpoint)
    → Inv s
    → get_elem? s.heap r ≡ some e
    → e'.name ≡ e.name
    → IsValid e'
    → After s (with_endpoint s r e')
set-After s r e e' i there same v =
    let g : Grows s.heap (set s.heap r e') =
      ([], names-set s.heap r e e' there same ∙ sym (append-nil _)) in
    (Tables-Grows _ _ _ _ _ g (All-set IsValid s.heap r e' i.valid v) i, g)

-- `new Endpoint`.
pub allocate-After :
    (s : Process) (name : Name) (peer : Address)
    → Inv s
    → After s (record s { heap = s.heap ++ new_endpoint name peer ∷ [] })
allocate-After s name peer i =
    let g : Grows s.heap (s.heap ++ new_endpoint name peer ∷ []) =
      (name ∷ [], map-append _ s.heap (new_endpoint name peer ∷ [])) in
    (
      Tables-Grows _ _ _ _ _ g
          (All-append IsValid s.heap _ i.valid (new_endpoint-IsValid name peer, tt)) i,
      g,
    )

pub Leads-allocated :
    (heap : List Endpoint) (e : Endpoint) → Leads (heap ++ e ∷ []) e.name (length heap)
Leads-allocated [] e = refl
Leads-allocated (x ∷ heap) e = Leads-allocated heap e

pub Leads-get :
    (heap : List Endpoint) (r : Ref) (e : Endpoint)
    → get_elem? heap r ≡ some e
    → Leads heap e.name r
Leads-get [] r e h = cc
Leads-get (x ∷ heap) zero e h = ap (λ q. some q.name) (some-injective _ _ h)
Leads-get (x ∷ heap) (suc r) e h = Leads-get heap r e h

pub After-refl : (s : Process) → Inv s → After s s
After-refl s i = (i, Grows-refl s.heap)

pub After-trans : (s t u : Process) → After s t → After t u → After s u
After-trans s t u (_, g) (i, h) = (i, Grows-trans s.heap t.heap u.heap g h)
