-- ===== src/Postgres/Sample.antt =====
-- A small server that behaves as the laws say: the contents are the versions in the tracking
-- table, and statements fail where PostgreSQL lets them fail.
use confiture.Base.{
  ◌≡◌, refl, Bool, true, false, none, List, [], ◌∷◌, ◌++◌, if◌then◌else◌, contains, remove, ◌==◌,
  nat_eq, list_eq, ltb, inl, inr, Bool-cases, beq_refl,
}
use confiture.Base.Text.{Text, codes}
use confiture.Base.Exec.{ok, err, Exec}
use confiture.Base.Triple.{Ends}
use confiture.Postgres.{TransactionStatus, idle, in_trans, Raised, driver_error, Row, Connection}
use confiture.Postgres.Laws.{Unpublished, IsPostgres, StaysUp}

pub record Server : Type 0 where
  pub working : List Text
  pub published : List Text
  pub savepoints : List (Text × List Text)
  pub status : TransactionStatus
  pub auto : Bool

abbrev snapshots : List (Text × List Text) → Text → List (List Text)
snapshots [] name = []
snapshots ((n, d) ∷ rest) name =
    let more = snapshots rest name in if n == name then d ∷ more else more

abbrev drop_savepoint : Text → List (Text × List Text) → List (Text × List Text)
drop_savepoint name [] = []
drop_savepoint name ((n, d) ∷ rest) =
    let more = (n, d) ∷ drop_savepoint name rest in if n == name then rest else more

abbrev refused : Raised
refused = driver_error (codes "refused")

abbrev sample_savepoint : Text → Exec Server Raised Unit
sample_savepoint name s =
    (ok tt, record s { savepoints = (name, s.working) ∷ s.savepoints; status = in_trans })

abbrev release_found : Text → List (List Text) → Exec Server Raised Unit
release_found name [] s = (err refused, s)
release_found name (d ∷ ds) s = (ok tt, record s { savepoints = drop_savepoint name s.savepoints })

abbrev back_found : List (List Text) → Exec Server Raised Unit
back_found [] s = (err refused, s)
back_found (d ∷ ds) s = (ok tt, record s { working = d })

abbrev pub sample : Connection
sample = record {
  Conn = Server;
  Db = List Text;
  versions = λ d. d;
  current = λ s. s.working;
  committed = λ s. s.published;
  saved = λ s name. snapshots s.savepoints name;
  transaction_status = λ s. s.status;
  autocommit = λ s. s.auto;
  create_savepoint = sample_savepoint;
  release_savepoint = λ name s. release_found name (snapshots s.savepoints name) s;
  rollback_to = λ name s. back_found (snapshots s.savepoints name) s;
  select_versions = λ s. (ok s.working, s);
  count_version = λ version s. (ok (if contains s.working version then 1 else 0), s);
  current_user = λ s. (ok none, s);
  insert_row = λ row s.
      if contains s.working row.version
      then (err refused, s)
      else (ok tt, record s { working = s.working ++ (row.version ∷ []); status = in_trans });
  delete_version = λ version s. (ok tt, record s { working = remove version s.working });
  commit = λ s. (ok tt, record s { published = s.working; savepoints = []; status = idle });
  rollback = λ s. (ok tt, record s { working = s.published; savepoints = []; status = idle });
  set_autocommit = λ on s. (ok tt, record s { auto = on });
}

snapshots_self :
    (name : Text) (d : List Text) (l : List (Text × List Text))
    → snapshots ((name, d) ∷ l) name ≡ d ∷ snapshots l name
snapshots_self name d l = rw (beq_refl name)

snapshots-drop_savepoint :
    (name : Text) (l : List (Text × List Text)) (d : List Text) (ds : List (List Text))
    → snapshots l name ≡ d ∷ ds
    → snapshots (drop_savepoint name l) name ≡ ds
snapshots-drop_savepoint name [] d ds h = cc
snapshots-drop_savepoint name ((n, x) ∷ rest) d ds h = elim (Bool-cases (n == name)) [
  | inl e ↦ rw e (cc (rw e at h))
  | inr e ↦ rw (e, e) (snapshots-drop_savepoint name rest d ds (rw e at h))
]

abbrev same : (name : Text) (s : Server) → Unpublished sample name s s
same name s = record { same_committed = refl; same_saved = refl }

released :
    (name : Text) (s : Server) (ds : List (List Text))
    → snapshots s.savepoints name ≡ ds
    → Ends
        (release_found name ds s)
        (λ _ c'.
          (c'.published ≡ s.published)
          × (c'.working ≡ s.working)
          × ((d : List Text) × (snapshots s.savepoints name ≡ d ∷ snapshots c'.savepoints name)))
        (λ _ c'. Unpublished sample name s c')
released name s [] e = record { post = same name s }
released name s (d ∷ ds) e = record {
  post = (refl, refl, (d, rw (snapshots-drop_savepoint name s.savepoints d ds e) e));
}

went_back :
    (name : Text) (s : Server) (ds : List (List Text))
    → snapshots s.savepoints name ≡ ds
    → Ends
        (back_found ds s)
        (λ _ c'.
          (c'.published ≡ s.published)
          × ((d : List Text) × (rest : List (List Text)) × (snapshots s.savepoints name ≡ d ∷ rest)
              × (c'.working ≡ d)))
        (λ _ c'. c'.published ≡ s.published)
went_back name s [] e = record { post = refl }
went_back name s (d ∷ ds) e = record { post = (refl, (d, ds, e, refl)) }

inserted :
    (row : Row) (name : Text) (s : Server) (b : Bool)
    → contains s.working row.version ≡ b
    → Ends {S = Server} {E = Raised} {A = Unit {0}}
        (if b
          then (err refused, s)
          else (ok tt, record s { working = s.working ++ (row.version ∷ []); status = in_trans }))
        (λ _ c'.
          Unpublished sample name s c'
          × (contains s.working row.version ≡ false)
          × (c'.working ≡ s.working ++ (row.version ∷ [])))
        (λ _ c'. Unpublished sample name s c')
inserted row name s true e = record { post = same name s }
inserted row name s false e = record {
  post = (record { same_committed = refl; same_saved = refl }, e, refl);
}

counted : (b : Bool) → ltb 0 (if b then 1 else 0) ≡ b
counted true = refl
counted false = refl

pub sample-IsPostgres : IsPostgres sample
sample-IsPostgres = record {
  savepoint_law =
      λ name s. record { post = (refl, refl, snapshots_self name s.working s.savepoints) };
  release_law = λ name s. released name s (snapshots s.savepoints name) refl;
  rollback_to_law = λ name s. went_back name s (snapshots s.savepoints name) refl;
  commit_law = λ s. record { post = (refl, refl, λ name. refl) };
  rollback_law = λ s. record { post = (refl, refl, λ name. refl) };
  insert_law = λ row name s. inserted row name s (contains s.working row.version) refl;
  delete_law = λ version name s. record {
    post = (record { same_committed = refl; same_saved = refl }, refl);
  };
  user_law = λ s. record { post = (λ name. same name s, refl, tt) };
  select_law = λ s. record { post = (λ name. same name s, refl, refl) };
  count_law = λ version s. record {
    post = (λ name. same name s, refl, counted (contains s.working version));
  };
}

pub sample-StaysUp : StaysUp sample
sample-StaysUp = record { rollback_up = λ s. record { post = tt } }
