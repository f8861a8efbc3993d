-- ===== src/Samples/Remotes.antt =====
-- Remote commands, a pool of two hosts, and a run that fails.
use symphony_python.Prelude.{
  ◌≤◌, ◌≡◌, refl, false, not, ◌&&◌, none, some, List, [], ◌∷◌, any, all, map, ltb, true,
}
use symphony_python.Text.{Text, codes, text_eq, starts_with, contains}
use symphony_python.Dict.{member}
use symphony_python.Remote.Quote.{
  Token, text_of, is_safe, is_unquotable, is_blank, is_quote, quote, quote_remote, render_token,
  render, Lexer, lex_step, lex_end, lex, same_texts, build_remote_command,
}
use symphony_python.Remote.Reparse.{lex-build_remote_command}
use symphony_python.Remote.Paths.{
  split_slashes, named, components, path_text, normalize_remote_path, is_strictly_under,
  assert_remote_within_root, build_remote_cleanup_command,
}
use symphony_python.Remote.Shell.{Shell, shell_words}
use symphony_python.Remote.Cleanup.{IsBelow, build_remote_cleanup_command-IsBelow}
use symphony_python.Remote.Parse.{is_refused, parse_host, destination}
use symphony_python.Remote.Brackets.{is_inner, in_brackets, bracketed_host, parse_host-in_brackets}
use symphony_python.Remote.Hosts.{HostState, find_host, PoolEvent, after_events, runs_on}
use symphony_python.Remote.Runs.{opened, after_events-within}
use symphony_python.Remote.Failover.{
  Failure, Mark, started, after_marks, decide_failover, may_switch_host,
}
use symphony_python.Remote.Latch.{is_effect, is_before_work, decide_failover-after_marks}

abbrev message : Text
message = codes "it's; rm -rf $HOME"

message_quotable : any is_unquotable message ≡ false
unfolding any is_unquotable
message_quotable = refl

echo_quotable : any is_unquotable (codes "echo") ≡ false
unfolding any is_unquotable
echo_quotable = refl

lex-build_remote_command_example :
    (line : Text) × (build_remote_command (
        Token.word (codes "echo")
        ∷ Token.word message
        ∷ Token.and_operator
        ∷ Token.word message
        ∷ [])
      ≡ some line)
    × (lex Lexer.blank line
        ≡ some (
            map text_of (
              Token.word (codes "echo")
              ∷ Token.word message
              ∷ Token.and_operator
              ∷ Token.word message
              ∷ [])))
lex-build_remote_command_example =
    lex-build_remote_command (Token.word (codes "echo"))
      (Token.word message ∷ Token.and_operator ∷ Token.word message ∷ []) echo_quotable
      (message_quotable, (tt, (message_quotable, tt)))

cleanup_built :
    build_remote_cleanup_command (codes "/srv/ws/E-1") (codes "/srv/ws")
    ≡ some (codes "rm -rf -- /srv/ws/E-1")
unfolding build_remote_cleanup_command assert_remote_within_root normalize_remote_path any
    is_unquotable starts_with contains member components named split_slashes text_eq
    is_strictly_under build_remote_command render render_token quote_remote quote all is_safe lex
    lex_step lex_end is_blank is_quote same_texts path_text
cleanup_built = refl

build_remote_cleanup_command-IsBelow_example :
    (path : List Text) × (base : List Text) × (normalize_remote_path (codes "/srv/ws/E-1")
      ≡ some path)
    × (normalize_remote_path (codes "/srv/ws") ≡ some base)
    × IsBelow base path
    × (member (codes "..") path ≡ false)
    × (lex Lexer.blank (codes "rm -rf -- /srv/ws/E-1")
        ≡ some (codes "rm" ∷ codes "-rf" ∷ codes "--" ∷ path_text path ∷ []))
    × (shell_words Shell.between (codes "rm -rf -- /srv/ws/E-1")
        ≡ some (codes "rm" ∷ codes "-rf" ∷ codes "--" ∷ path_text path ∷ []))
build_remote_cleanup_command-IsBelow_example =
    build_remote_cleanup_command-IsBelow (codes "/srv/ws/E-1") (codes "/srv/ws")
      (codes "rm -rf -- /srv/ws/E-1") cleanup_built

digest : Text → Text
digest s = codes "0123456789abcdef"

-- The second run asks for the host of the first, which has no room, and gets the other one; the
-- third waits until the first gives its host back.
abbrev events : List PoolEvent
events =
    PoolEvent.acquires (codes "E-1") (codes "/srv/ws") none
    ∷ PoolEvent.acquires (codes "E-2") (codes "/srv/ws") (some (codes "a"))
    ∷ PoolEvent.loses (codes "b") none
    ∷ PoolEvent.acquires (codes "E-3") (codes "/srv/ws") none
    ∷ PoolEvent.releases 1
    ∷ PoolEvent.acquires (codes "E-3") (codes "/srv/ws") none
    ∷ []

after_events-within_example :
    let r = after_events digest (opened (codes "a" ∷ codes "b" ∷ []) 0) events in
    (runs_on (codes "a") r.held ≤ 1)
    × ((s : HostState)
        → find_host (codes "a") r.pool.states ≡ some s
        → s.in_use ≡ runs_on (codes "a") r.held)
after_events-within_example =
    after_events-within digest (codes "a" ∷ codes "b" ∷ []) 0 events (codes "a")

decide_failover-after_marks_example :
    may_switch_host (
      decide_failover
        (after_marks started (Mark.workspace_prepared ∷ Mark.turn_dispatched 1 ∷ []))
        Failure.host_unreachable
        3)
    ≡ (not (any is_effect (Mark.workspace_prepared ∷ Mark.turn_dispatched 1 ∷ []))
        && is_before_work Failure.host_unreachable
        && ltb 0 3)
decide_failover-after_marks_example =
    decide_failover-after_marks (Mark.workspace_prepared ∷ Mark.turn_dispatched 1 ∷ [])
      Failure.host_unreachable 3

abbrev proxy_option : Text
proxy_option = codes "-oProxyCommand=touch${IFS}x"

proxy_inner : all is_inner proxy_option ≡ true
unfolding all is_inner is_refused is_unquotable
proxy_inner = refl

-- An entry whose destination is an option of `ssh`
parse_host-in_brackets_example :
    (parse_host (in_brackets proxy_option) ≡ some (bracketed_host proxy_option))
    × (destination (bracketed_host proxy_option) ≡ proxy_option)
parse_host-in_brackets_example = parse_host-in_brackets proxy_option refl proxy_inner
