-- ===== src/Runtime/Wired.antt =====
-- runtime.py: the classes of the default ports, and build_default_ports.
use termiclaw.Prelude.{◌^◌, some, pos}
use termiclaw.Float.{finite, ticks}
use termiclaw.Errors.{Raises, returns}
use termiclaw.Model.{Config}
use termiclaw.Action.{Action, ◌>>◌}
use termiclaw.Ports.{Ports, ContainerPort, PlannerPort, PersistencePort, SummarizePort}
use termiclaw.Container.{get_incremental_output}
use termiclaw.Container.Process.{
  ensure_image, provision_container, provision_session, destroy_container, is_session_alive,
  send_keys, capture_visible, capture_full_history,
}
use termiclaw.Planner.Usage.{extract_usage}
use termiclaw.Trajectory.{append_step, write_run_metadata}
use termiclaw.Database.{Db}
use termiclaw.Database.Bind.{execute_insert_run, execute_update_run, insert_step}
use termiclaw.Summarizer.Worker.{SummarizationWorker, idle, submit, shutdown}
use termiclaw.Runtime.{
  Outside, World, outward, set_at, send_and_wait, query, parse, aggregate, refresh, poll_worker,
}

module _ {W : Type 0} (o : Outside W) where
  -- `_POST_PROVISION_SESSION_WAIT_S`, half a second.
  abbrev pub pause : Action W (Unit {0})
  unfolding ticks
  pause w = (returns tt, o.host.sleep (finite (pos (2 ^ 1073))) w)

  abbrev pub container_port : ContainerPort (World W)
  container_port = record {
    ensure_image = outward (ensure_image o.host);
    provision_container = λ image network. outward (provision_container o.host image network);
    provision_session = λ id session width height history_limit.
        outward (provision_session o.host id session width height history_limit >> pause);
    destroy_container = λ id. outward (destroy_container o.host id);
    is_session_alive = λ id session. outward (is_session_alive o.host id session);
    send_and_wait_idle = λ id session keys max_seconds poll_interval limit.
        outward (send_and_wait o id session keys max_seconds poll_interval limit);
    send_keys = λ id session keys limit. outward (send_keys o.host id session keys limit);
    get_incremental_output = λ id session previous. outward (
        get_incremental_output (capture_full_history o.host id session)
          (capture_visible o.host id session) previous);
  }

  abbrev pub planner_port : PlannerPort (World W)
  planner_port = record {
    query = query o;
    parse_response = parse o;
    extract_usage = extract_usage o.py;
  }

  -- What a statement came to, and the database that it left.
  abbrev pub on_db : Raises (Unit {0}) × Db → World W → Raises (Unit {0}) × World W
  on_db (r, db) w = (r, record w { db = db })

  abbrev pub persistence_port : PersistencePort (World W)
  persistence_port = record {
    append_step = λ run_dir step w. (
      returns tt,
      record w { runs = set_at run_dir (append_step o.dumps (w.runs run_dir) step) w.runs },
    );
    insert_step = λ run_id step step_index input_tokens output_tokens cost_usd duration w.
        on_db
          (insert_step w.db run_id step (record {
            step_index = step_index;
            input_tokens = input_tokens;
            output_tokens = output_tokens;
            cost_usd = cost_usd;
            planner_duration_ms = duration;
          }))
          w;
    insert_run = λ state w. on_db (execute_insert_run w.db state) w;
    update_run = λ state finished_at reason prompt_tokens input_tokens output_tokens cost_usd w.
        on_db
          (execute_update_run w.db state (record {
            finished_at = finished_at;
            termination_reason = reason;
            total_prompt_tokens = prompt_tokens;
            total_input_tokens = input_tokens;
            total_output_tokens = output_tokens;
            total_cost_usd = cost_usd;
          }))
          w;
    write_run_metadata = λ run_dir state finished_at reason w. (
      returns tt,
      record w {
        runs =
            set_at run_dir
              (write_run_metadata o.dumps_indented (w.runs run_dir) state (some finished_at)
                (some reason))
              w.runs;
      },
    );
    aggregate_usage = aggregate o;
  }

  abbrev pub on_worker : {A : Type 0} → Action SummarizationWorker A → Action (World W) A
  on_worker m w = let (r, v) = m w.worker in (r, record w { worker = v })

  abbrev pub summarize_port : Config → SummarizePort (World W)
  summarize_port config = record {
    idle = λ w. (returns (idle w.worker), w);
    poll = poll_worker o config;
    submit = λ job. on_worker (submit job);
    shutdown = λ w. (returns tt, record w { worker = shutdown w.worker });
  }

  unfoldable pub build_default_ports : Config → Ports (World W)
  build_default_ports config = record {
    container = container_port;
    planner = planner_port;
    persistence = persistence_port;
    artifacts = record { refresh = refresh o config };
    summarize = summarize_port config;
    hold = λ state w. record w { held = state };
  }
