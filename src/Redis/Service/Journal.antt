-- ===== src/Redis/Service/Journal.antt =====
-- packages/redis/src/service.ts, with a journal of what the daemon does to containers. The queue, the
-- network and the files leave the journal as it is.
use dynamic_conversion_servi.Docker.Journal.{Recorded, recorded}
use dynamic_conversion_servi.Redis.Worker.Network.{Network}
use dynamic_conversion_servi.Redis.Wrapper.{Rsmq}
use dynamic_conversion_servi.Redis.Service.{Environment}

-- A call that leaves the journal.
abbrev pub beside : {W A : Type 0} → (W → A × W) → Recorded W → A × Recorded W
beside f s = let (a, w) = f s.world in (a, record s { world = w })

abbrev pub rsmq_beside : {W : Type 0} → Rsmq W → Rsmq (Recorded W)
rsmq_beside rsmq = record {
  get_queue_attributes = λ queue. beside (rsmq.get_queue_attributes queue);
  pop_message = λ queue. beside (rsmq.pop_message queue);
  send_message = λ queue message. beside (rsmq.send_message queue message);
  create_queue = λ queue. beside (rsmq.create_queue queue);
  delete_queue = λ queue. beside (rsmq.delete_queue queue);
  list_queues = beside rsmq.list_queues;
}

abbrev network_beside : {W : Type 0} → Network W → Network (Recorded W)
network_beside net = record {
  extname = net.extname;
  join = net.join;
  post = λ url form. beside (net.post url form);
  status = λ url id. beside (net.status url id);
  download = λ url id path. beside (net.download url id path);
  delete_file = λ path. beside (net.delete_file path);
  now = beside net.now;
}

abbrev pub with_journal : {W E : Type 0} → Environment W E → Environment (Recorded W) E
with_journal environment = record {
  daemon = recorded environment.daemon;
  rsmq = rsmq_beside environment.rsmq;
  network = network_beside environment.network;
  stringify = environment.stringify;
  parse = environment.parse;
  read_output = beside environment.read_output;
  delete_orphan = λ file. beside (environment.delete_orphan file);
}
