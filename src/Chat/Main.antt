-- ===== src/Chat/Main.antt =====
-- examples/chat/main.go: the chat's program, which are init, Usage, index, newChat and main. The libraries
-- that it calls are parameters, or the calls of them are recorded, in order.
pub mod Ends
use Prim.Native.String.{String}
use Prim.Native.String.{◌++◌ as ◌&&◌}
use bimpc.Common.{ℕ, zero, suc, Option, none, some, Bool, true, false, List, [], ◌∷◌, ◌++◌}
use bimpc.Memory.{Bytes}
use bimpc.Action.{GoError, Action, ◌>>=◌, ◌>>◌}

-- The embedded files of assets.go
pub record Assets : Type 0 where
  pub chat_html : String
  pub chat_css : String
  pub chat_js : String

-- html/template, where `S` is a set of templates: html.New(name).Parse(text), and ExecuteTemplate, which
-- may have written a part of the page when it fails.
pub record Templates (S : Type 0) : Type 0 where
  pub parse : String → String → Action S (Unit {0})
  pub execute : String → S → Bytes × Option GoError

module _ {S : Type 0} (t : Templates S) where
  -- An error is the panic of template.Must.
  unfoldable pub init : Assets → Action S (Unit {0})
  init assets = do
    t.parse "chat.html" assets.chat_html
    t.parse "chat.css" assets.chat_css
    t.parse "chat.js" assets.chat_js

-- What index has answered; a response has no more than one header here.
pub record Response : Type 0 where
  pub content_type : Option String
  pub status : Option ℕ
  pub body : Bytes

-- The chat, with the topic, the registry of services and websocket.Upgrader.
pub record Chat (T R U : Type 0) : Type 0 where
  pub broadcast : T
  pub registry : R
  pub upgrader : U

-- `no_upgrader` is the zero value, which newChat leaves in the field.
unfoldable pub new_chat : {T R U : Type 0} → T → R → U → (Chat T R U → R → R) → Chat T R U
new_chat {T} {R} {U} new_topic new_registry no_upgrader register_service =
    let c : Chat T R U = record {
      broadcast = new_topic;
      registry = new_registry;
      upgrader = no_upgrader;
    } in
    record c { registry = register_service c c.registry }

-- What a request's path is handled by.
pub data Served : Type 0 where
  socket page : Served

-- A call whose effect is outside the program.
pub data Effect : Type 0 where
  set_flags : ℕ → Effect
  set_prefix : String → Effect
  -- log.Printf, with the text it is given to print
  logs : String → Effect
  logs_error : String → GoError → Effect
  -- fmt.Fprintf(os.Stderr, ...) and flag.PrintDefaults
  prints : String → Effect
  prints_defaults : Effect
  prints_error : GoError → Effect
  exits : ℕ → Effect
  handles : String → Served → Effect
  listens : String → Effect
  -- close(chat.broadcast.Broadcast), which ends the topic
  closes_broadcast : Effect

abbrev page_log : Option GoError → List Effect
page_log none = []
page_log (some e) = logs_error "Template error: " e ∷ []

module _ {S : Type 0} (t : Templates S) where
  unfoldable pub index : S → Response → Response × List Effect
  index html w =
      let (written, e) = t.execute "chat.html" html in
      (
        record w { content_type = some "text/html"; status = some 200; body = w.body ++ written },
        page_log e,
      )

-- What flag.Parse has found, where it returns: os.Args[0], -host, -port, where `P` is int, and how many arguments are left.
pub record CommandLine (P : Type 0) : Type 0 where
  pub program : String
  pub host : String
  pub port : P
  pub arguments : ℕ

-- What flag.Parse does: it returns, or it stops the process with a status of its own, 2 for a flag that it
-- cannot take and 0 for -h, after it has printed what was wrong, if anything, and has called flag.Usage.
pub data Parsing : Type 0 where
  parsed : Parsing
  stops : Option GoError → ℕ → Parsing

abbrev pub complaint : Option GoError → List Effect
complaint none = []
complaint (some e) = prints_error e ∷ []

-- A deferred call runs when the function returns, not when the process has exited in it: os.Exit runs
-- none.
abbrev pub with_deferred : List Effect → List Effect × Bool → List Effect
with_deferred deferred (calls, true) = calls
with_deferred deferred (calls, false) = calls ++ deferred

-- `if err != nil { log.Fatal(err) }`; log.Fatal prints and calls os.Exit(1), after which nothing
-- runs.
abbrev pub after_listening : Option GoError → List Effect × Bool
after_listening none = ([], false)
after_listening (some e) = (logs_error "" e ∷ exits 1 ∷ [], true)

-- `base` is path.Base and `decimal` the verb %d.
module _ {P : Type 0} (base : String → String) (decimal : P → String) where
  unfoldable pub usage : CommandLine P → List Effect
  usage c = prints ("Usage of " && c.program && ":\n") ∷ prints_defaults ∷ []

  unfoldable pub address : CommandLine P → String
  address c = c.host && ":" && decimal c.port

  -- main from the first log.Printf on, where ListenAndServe returns `e`.
  unfoldable pub serve_pages : CommandLine P → Option GoError → List Effect
  unfolding address
  serve_pages c e =
      let (ending, has_exited) = after_listening e in
      with_deferred (closes_broadcast ∷ []) (
        logs ("Serving at http://" && c.host && ":" && decimal c.port && "/")
            ∷ handles "/sock" socket
            ∷ handles "/" page
            ∷ listens (address c)
            ∷ ending,
        has_exited,
      )

  -- `if flag.NArg() > 0`
  unfoldable pub start : ℕ → CommandLine P → Option GoError → List Effect
  unfolding usage serve_pages
  start zero c e = serve_pages c e
  start (suc n) c e = usage c ++ (exits 1 ∷ [])

  -- main from `flag.Usage = Usage` on
  unfoldable pub parse : Parsing → CommandLine P → Option GoError → List Effect
  unfolding start usage
  parse parsed c e = start c.arguments c e
  parse (stops said status) c e = complaint said ++ (usage c ++ (exits status ∷ []))

  unfoldable pub main : Parsing → CommandLine P → Option GoError → List Effect
  unfolding parse
  main p c e = set_flags 0 ∷ set_prefix (base c.program && ": ") ∷ parse p c e
